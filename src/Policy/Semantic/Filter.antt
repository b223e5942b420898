-- ===== src/Policy/Semantic/Filter.antt =====
-- `at_age` and `at_lock_time` of src/policy/semantic.rs. Whether a lock time is implied by the given
-- one, `is_implied_by` of the bitcoin crate, is an argument.
use rust_miniscript.Prelude.{
  ◌+◌, Bool, true, false, ◌&&◌, leb, from_bool, if◌then◌else◌, ◌≡◌, refl, ap, ap₂, ◌∙◌,
}
use rust_miniscript.Primitives.Locktime.{Bitcoin, AbsLockTime, RelLockTime}
use rust_miniscript.Miniscript.Ast.{MiniscriptKey}
use rust_miniscript.Policy.Semantic.{Policy, Policies, nil, cons, normalized, holds, count}
use rust_miniscript.Policy.Semantic.Meaning.{normalized-holds}

module _ {B : Bitcoin} {K : MiniscriptKey} where
  module _ (implied : RelLockTime B → Bool) where
    unfoldable mutual
      pub older_filtered : Policy B K → Policy B K
      older_filtered (Policy.older t) = if implied t then Policy.older t else Policy.unsatisfiable
      older_filtered (Policy.thresh k subs) = Policy.thresh k (older_filtered_all subs)
      older_filtered (Policy.inscribe i sub) = Policy.inscribe i (older_filtered sub)
      older_filtered x = x

      pub older_filtered_all : Policies B K → Policies B K
      older_filtered_all nil = nil
      older_filtered_all (cons p ps) = cons (older_filtered p) (older_filtered_all ps)

    unfoldable pub at_age : Policy B K → Policy B K
    unfolding older_filtered
    at_age p = normalized (older_filtered p)

    -- Relative lock times that are not implied are not available.
    abbrev pub with_age : (Policy B K → Bool) → Policy B K → Bool
    with_age v (Policy.older t) = implied t && v (Policy.older t)
    with_age v x = v x

    older-holds :
        (v : Policy B K → Bool) (t : RelLockTime B) (b : Bool)
        → holds v (if b then Policy.older t else Policy.unsatisfiable) ≡ b && v (Policy.older t)
    unfolding holds
    older-holds v t true = refl
    older-holds v t false = refl

    mutual
      unfolding older_filtered holds

      older_filtered-holds :
          (v : Policy B K → Bool) (p : Policy B K)
          → holds v (older_filtered p) ≡ holds (with_age v) p
      older_filtered-holds v (Policy.older t) = older-holds v t (implied t)
      older_filtered-holds v (Policy.thresh k subs) = ap (leb k) (older_filtered-count v subs)
      older_filtered-holds v (Policy.inscribe i sub) = older_filtered-holds v sub
      older_filtered-holds v _ = refl

      older_filtered-count :
          (v : Policy B K → Bool) (ps : Policies B K)
          → count v (older_filtered_all ps) ≡ count (with_age v) ps
      older_filtered-count v nil = refl
      older_filtered-count v (cons p ps) =
          ap₂ (λ x n. from_bool x + n) (older_filtered-holds v p) (older_filtered-count v ps)

    -- `at_age` gives a policy that holds exactly where the original holds with no relative lock
    -- time but those that the age implies.
    pub at_age-holds :
        (v : Policy B K → Bool) (p : Policy B K) → holds v (at_age p) ≡ holds (with_age v) p
    unfolding at_age
    at_age-holds v p = normalized-holds v (older_filtered p) ∙ older_filtered-holds v p

  module _ (implied : AbsLockTime B → Bool) where
    unfoldable mutual
      pub after_filtered : Policy B K → Policy B K
      after_filtered (Policy.after t) = if implied t then Policy.after t else Policy.unsatisfiable
      after_filtered (Policy.thresh k subs) = Policy.thresh k (after_filtered_all subs)
      after_filtered (Policy.inscribe i sub) = Policy.inscribe i (after_filtered sub)
      after_filtered x = x

      pub after_filtered_all : Policies B K → Policies B K
      after_filtered_all nil = nil
      after_filtered_all (cons p ps) = cons (after_filtered p) (after_filtered_all ps)

    unfoldable pub at_lock_time : Policy B K → Policy B K
    unfolding after_filtered
    at_lock_time p = normalized (after_filtered p)

    -- Absolute lock times that are not implied are not available.
    abbrev pub with_lock_time : (Policy B K → Bool) → Policy B K → Bool
    with_lock_time v (Policy.after t) = implied t && v (Policy.after t)
    with_lock_time v x = v x

    after-holds :
        (v : Policy B K → Bool) (t : AbsLockTime B) (b : Bool)
        → holds v (if b then Policy.after t else Policy.unsatisfiable) ≡ b && v (Policy.after t)
    unfolding holds
    after-holds v t true = refl
    after-holds v t false = refl

    mutual
      unfolding after_filtered holds

      after_filtered-holds :
          (v : Policy B K → Bool) (p : Policy B K)
          → holds v (after_filtered p) ≡ holds (with_lock_time v) p
      after_filtered-holds v (Policy.after t) = after-holds v t (implied t)
      after_filtered-holds v (Policy.thresh k subs) = ap (leb k) (after_filtered-count v subs)
      after_filtered-holds v (Policy.inscribe i sub) = after_filtered-holds v sub
      after_filtered-holds v _ = refl

      after_filtered-count :
          (v : Policy B K → Bool) (ps : Policies B K)
          → count v (after_filtered_all ps) ≡ count (with_lock_time v) ps
      after_filtered-count v nil = refl
      after_filtered-count v (cons p ps) =
          ap₂ (λ x n. from_bool x + n) (after_filtered-holds v p) (after_filtered-count v ps)

    -- `at_lock_time` gives a policy that holds exactly where the original holds with no absolute
    -- lock time but those that the given one implies.
    pub at_lock_time-holds :
        (v : Policy B K → Bool) (p : Policy B K)
        → holds v (at_lock_time p) ≡ holds (with_lock_time v) p
    unfolding at_lock_time
    at_lock_time-holds v p = normalized-holds v (after_filtered p) ∙ after_filtered-holds v p
