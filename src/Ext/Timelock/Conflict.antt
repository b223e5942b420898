-- ===== src/Ext/Timelock/Conflict.antt =====
-- What `contains_combination` of a combined `TimelockInfo` means.
use rust_miniscript.Prelude.{
  ℕ, Bool, true, false, ◌&&◌, ◌||◌, List, [], ◌∷◌, ltb, ◌≡◌, refl, ◌∙◌, arith, Bool-cases, inl, inr,
}
use mathlib.Core.Bool.{or_assoc, or-false}
use rust_miniscript.Ext.Timelock.{
  TimelockInfo, new, height_and_time, combine_step, combine_fold, combine_threshold,
}

-- Some child already has an unspendable path.
abbrev pub any_combination : List TimelockInfo → Bool
any_combination [] = false
any_combination (t ∷ ts) = t.contains_combination || any_combination ts

-- Whether a lock is relative or absolute, and whether it is by height or by time.
pub data Clock : Type 0 where
  csv cltv : Clock

pub data Measure : Type 0 where
  height time : Measure

abbrev pub has_lock : TimelockInfo → Clock → Measure → Bool
has_lock t Clock.csv Measure.height = t.csv_with_height
has_lock t Clock.csv Measure.time = t.csv_with_time
has_lock t Clock.cltv Measure.height = t.cltv_with_height
has_lock t Clock.cltv Measure.time = t.cltv_with_time

-- Two locks on one clock, of which one is by height and the other by time.
abbrev pub conflicting_on : Clock → TimelockInfo → TimelockInfo → Bool
conflicting_on c t u =
    (has_lock t c Measure.height && has_lock u c Measure.time)
    || (has_lock t c Measure.time && has_lock u c Measure.height)

abbrev pub conflicting : TimelockInfo → TimelockInfo → Bool
conflicting t u = conflicting_on Clock.csv t u || conflicting_on Clock.cltv t u

-- A child's locks conflict with those of one of the others.
abbrev pub any_conflict : TimelockInfo → List TimelockInfo → Bool
any_conflict t [] = false
any_conflict t (u ∷ us) = conflicting t u || any_conflict t us

-- Two different children have conflicting locks.
abbrev pub pair_conflict : List TimelockInfo → Bool
pair_conflict [] = false
pair_conflict (t ∷ ts) = any_conflict t ts || pair_conflict ts

or_shuffle : (a b c d : Bool) → (a || b) || (c || d) ≡ (a || c) || (b || d)
or_shuffle a b c d = ground arith

or_shuffle_clocks :
    (a b c d e f g h : Bool)
    → ((a || b) || (c || d)) || ((e || f) || (g || h))
      ≡ ((a || c) || (e || g)) || ((b || d) || (f || h))
or_shuffle_clocks a b c d e f g h =
    rw (or_shuffle a b c d, or_shuffle e f g h, or_shuffle (a || c) (b || d) (e || g) (f || h)) refl

and_distrib : (a b x : Bool) → (a || b) && x ≡ (a && x) || (b && x)
and_distrib a b x = ground arith

regroup_clocks : (a b c d : Bool) → a || b || c || d ≡ (a || b) || (d || c)
regroup_clocks a b c d = ground arith

height_and_time-conflicting : (t u : TimelockInfo) → height_and_time t u ≡ conflicting t u
unfolding height_and_time
height_and_time-conflicting t u = regroup_clocks (t.csv_with_height && u.csv_with_time) _ _ _

conflicting-step :
    (k : ℕ) (acc t u : TimelockInfo)
    → conflicting (combine_step k acc t) u ≡ conflicting acc u || conflicting t u
unfolding combine_step
conflicting-step k acc t u = simp and_distrib (
    or_shuffle_clocks (acc.csv_with_height && u.csv_with_time)
      (t.csv_with_height && u.csv_with_time) (acc.csv_with_time && u.csv_with_height)
      (t.csv_with_time && u.csv_with_height) (acc.cltv_with_height && u.cltv_with_time)
      (t.cltv_with_height && u.cltv_with_time) (acc.cltv_with_time && u.cltv_with_height)
      (t.cltv_with_time && u.cltv_with_height))

-- The accumulated locks conflict with a child exactly where one of those accumulated does.
any_conflict-step :
    (k : ℕ) (acc t : TimelockInfo) (ts : List TimelockInfo)
    → any_conflict (combine_step k acc t) ts ≡ any_conflict acc ts || any_conflict t ts
any_conflict-step k acc t [] = refl
any_conflict-step k acc t (u ∷ us) =
    rw (conflicting-step k acc t u, any_conflict-step k acc t us)
      (or_shuffle (conflicting acc u) _ _ _)

contains_combination-step :
    (k : ℕ) (acc t : TimelockInfo)
    → ltb 1 k ≡ true
    → (combine_step k acc t).contains_combination
      ≡ (acc.contains_combination || conflicting acc t) || t.contains_combination
unfolding combine_step
contains_combination-step k acc t h = rw (h, height_and_time-conflicting acc t)

regroup :
    (a x t m y p n : Bool)
    → ((a || x) || t) || m || (y || n) || p ≡ a || (t || m) || (x || y) || (n || p)
regroup a x t m y p n = ground arith

fold_many :
    (k : ℕ) (acc : TimelockInfo) (ts : List TimelockInfo)
    → ltb 1 k ≡ true
    → (combine_fold k acc ts).contains_combination
      ≡ acc.contains_combination || any_combination ts || any_conflict acc ts || pair_conflict ts
unfolding combine_fold
fold_many k acc [] h = ground arith
fold_many k acc (t ∷ ts) h =
    fold_many k (combine_step k acc t) ts h
    ∙ rw (any_conflict-step, contains_combination-step k acc t h)
        (regroup acc.contains_combination _ _ _ _ _ _)

fold_one :
    (k : ℕ) (acc : TimelockInfo) (ts : List TimelockInfo)
    → ltb 1 k ≡ false
    → (combine_fold k acc ts).contains_combination ≡ acc.contains_combination || any_combination ts
unfolding combine_fold combine_step
fold_one k acc [] h = ground arith
fold_one k acc (t ∷ ts) h =
    fold_one k (combine_step k acc t) ts h ∙ rw h (or_assoc acc.contains_combination _ _)

any_conflict-new : (ts : List TimelockInfo) → any_conflict new ts ≡ false
any_conflict-new [] = refl
any_conflict-new (t ∷ ts) = any_conflict-new ts

-- A combination is flagged exactly where a child has one, or where more than one child is needed
-- and two children at different places have conflicting locks: both relative or both absolute, and of
-- one of them by height and of the other by time.
pub contains_combination-combine_threshold :
    (k : ℕ) (ts : List TimelockInfo)
    → (combine_threshold k ts).contains_combination
      ≡ any_combination ts || (ltb 1 k && pair_conflict ts)
unfolding combine_threshold
contains_combination-combine_threshold k ts = elim (Bool-cases (ltb 1 k)) [
  | inl many ↦ fold_many k new ts many ∙ rw (many, any_conflict-new ts, or-false) refl
  | inr one ↦ fold_one k new ts one ∙ rw (one, or-false) refl
]
