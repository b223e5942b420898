-- ===== src/Miniscript/Analysis/Signatures.antt =====
-- What `requires_sig` of src/miniscript/analyzable.rs says of a script: the flag `safe` of
-- src/miniscript/types/malleability.rs.
use rust_miniscript.Prelude.{
  ℕ, suc, ◌+◌, ◌-◌, ◌≤◌, Bool, true, false, not, ◌&&◌, ◌||◌, ltb, leb, from_bool, List, [], ◌∷◌,
  map, length, length-map, Result, ok, err, if◌then◌else◌, ◌≡◌, refl, sym, ◌∙◌, ap, arith,
}
use rust_miniscript.Primitives.Locktime.{Bitcoin}
use rust_miniscript.Types.Kinds.{ErrorKind}
use rust_miniscript.Types.Correctness.{Correctness}
use rust_miniscript.Types.Malleability.{Malleability, Tally, tally}
use rust_miniscript.Types.Fragment
use rust_miniscript.Types.Fragment.{Ty, with_mall}
use rust_miniscript.Ext.Data.{ExtData}
use rust_miniscript.Miniscript.Ast.{
  MiniscriptKey, Inscription, Terminal, Miniscript, miniscript, Subs, nil, cons, ty, tys,
}
use rust_miniscript.Miniscript.Check.{type_check, check_inscribe, is_empty, any_invalid}
use rust_miniscript.Miniscript.Context.{Context}
use rust_miniscript.Miniscript.Build.{Everywhere, EveryChild, EverySub, IsBuilt, Checked}
use rust_miniscript.Miniscript.Build.Annotated.{IsBuilt-Accepted, Accepted, Everywhere-map}
use rust_miniscript.Miniscript.Analysis.{requires_sig}
use rust_miniscript.Policy.Concrete.Safety.{unsigned}
use rust_miniscript.Policy.Lift.Spending.{available, spendable, node_spendable, spendable_count}

with_mall-safe :
    (c : Result ErrorKind Correctness) (m : Malleability) (t : Ty)
    → with_mall c m ≡ ok t
    → t.mall.safe ≡ m.safe
with_mall-safe (ok x) m t h =
    let e : t ≡ record { corr = x; mall = m } = cc in ap (λ u. u.mall.safe) e
with_mall-safe (err x) m t h = cc

abbrev the_ok : Ty → Result ErrorKind Ty
the_ok u = ok u

ok-safe : (u t : Ty) → the_ok u ≡ ok t → t.mall.safe ≡ u.mall.safe
ok-safe u t h = let e : t ≡ u = cc in ap (λ u. u.mall.safe) e

guarded-safe :
    (b : Bool) (x : ErrorKind) (u t : Ty)
    → (if b then err x else ok u) ≡ ok t
    → t.mall.safe ≡ u.mall.safe
guarded-safe true x u t h = cc
guarded-safe false x u t h = ok-safe u t h

check_inscribe-safe :
    (B : Bitcoin) (i : List Inscription) (u t : Ty)
    → check_inscribe B i u ≡ ok t
    → t.mall.safe ≡ u.mall.safe
unfolding check_inscribe
check_inscribe-safe B i u t h =
    guarded-safe (is_empty i || any_invalid B i) ErrorKind.invalid_inscription u t h

either_unsigned : {a b : Bool} (p q : Bool) → a ≡ not p → b ≡ not q → (a || b) ≡ not (p && q)
either_unsigned p q h g = rw (h, g) (ground arith)

both_unsigned : {a b : Bool} (p q : Bool) → a ≡ not p → b ≡ not q → (a && b) ≡ not (p || q)
both_unsigned p q h g = rw (h, g) (ground arith)

branches_unsigned : (p q r : Bool) → ((not p || not q) && not r) ≡ not ((p && q) || r)
branches_unsigned p q r = ground arith

safe_step :
    (p : Bool) (a s n c : ℕ) → s + c ≡ a + from_bool (not p) + n → s + (from_bool p + c) ≡ a + suc n
safe_step true a s n c h = omega (arith, h)
safe_step false a s n c h = omega (arith, h)

threshold_unsigned : (k n s c : ℕ) → k ≤ n → s + c ≡ n → ltb (n - k) s ≡ not (leb k c)
threshold_unsigned k n s c h e = ground (arith, h, e)

abbrev empty_tally : Tally
empty_tally = record { safe_count = 0; all_are_dissat_unique = true; all_are_non_malleable = true }

module _ (B : Bitcoin) (K : MiniscriptKey) where
  none_available : (pks : List K.Pk) → available (unsigned {B = B} {K = K}) pks ≡ 0
  none_available [] = refl
  none_available (pk ∷ pks) = omega (arith, none_available pks)

  few_keys :
      (k : ℕ) (pks : List K.Pk)
      → 1 ≤ k
      → true ≡ not (leb k (available (unsigned {B = B} {K = K}) pks))
  few_keys k pks h = rw (none_available pks) (ground (arith, h))

module _ {B : Bitcoin} {K : MiniscriptKey} where
  abbrev Typed : Terminal B K → Ty → ExtData → Type 0
  Typed n t e = type_check n ≡ ok t

  mutual
    unfolding type_check spendable Fragment.cast_alt Fragment.cast_swap Fragment.cast_check
        Fragment.cast_dupif Fragment.cast_verify Fragment.cast_nonzero Fragment.cast_zeronotequal
        Fragment.and_b Fragment.and_v Fragment.or_b Fragment.or_d Fragment.or_c Fragment.or_i
        Fragment.and_or Fragment.threshold tally

    safe-spendable :
        (ms : Miniscript B K) → Everywhere Typed ms → requires_sig ms ≡ not (spendable unsigned ms)
    safe-spendable (miniscript n t e) h = node_safe-spendable n t h.0 h.1

    node_safe-spendable :
        (n : Terminal B K) (t : Ty)
        → type_check n ≡ ok t
        → EveryChild Typed n
        → t.mall.safe ≡ not (node_spendable unsigned n)
    node_safe-spendable (Terminal.inscribe_pre i s) t e h =
        check_inscribe-safe B i (ty s) t e ∙ safe-spendable s h
    node_safe-spendable (Terminal.inscribe_post i s) t e h =
        check_inscribe-safe B i (ty s) t e ∙ safe-spendable s h
    node_safe-spendable (Terminal.alt s) t e h = with_mall-safe _ _ t e ∙ safe-spendable s h
    node_safe-spendable (Terminal.swap s) t e h = with_mall-safe _ _ t e ∙ safe-spendable s h
    node_safe-spendable (Terminal.check s) t e h = with_mall-safe _ _ t e ∙ safe-spendable s h
    node_safe-spendable (Terminal.dup_if s) t e h = with_mall-safe _ _ t e ∙ safe-spendable s h
    node_safe-spendable (Terminal.verify s) t e h = with_mall-safe _ _ t e ∙ safe-spendable s h
    node_safe-spendable (Terminal.non_zero s) t e h = with_mall-safe _ _ t e ∙ safe-spendable s h
    node_safe-spendable (Terminal.zero_not_equal s) t e h =
        with_mall-safe _ _ t e ∙ safe-spendable s h
    node_safe-spendable (Terminal.and_b l r) t e h =
        with_mall-safe _ _ t e
        ∙ either_unsigned (spendable unsigned l) (spendable unsigned r) (safe-spendable l h.0)
            (safe-spendable r h.1)
    node_safe-spendable (Terminal.and_v l r) t e h =
        with_mall-safe _ _ t e
        ∙ either_unsigned (spendable unsigned l) (spendable unsigned r) (safe-spendable l h.0)
            (safe-spendable r h.1)
    node_safe-spendable (Terminal.or_b l r) t e h =
        with_mall-safe _ _ t e
        ∙ both_unsigned (spendable unsigned l) (spendable unsigned r) (safe-spendable l h.0)
            (safe-spendable r h.1)
    node_safe-spendable (Terminal.or_d l r) t e h =
        with_mall-safe _ _ t e
        ∙ both_unsigned (spendable unsigned l) (spendable unsigned r) (safe-spendable l h.0)
            (safe-spendable r h.1)
    node_safe-spendable (Terminal.or_c l r) t e h =
        with_mall-safe _ _ t e
        ∙ both_unsigned (spendable unsigned l) (spendable unsigned r) (safe-spendable l h.0)
            (safe-spendable r h.1)
    node_safe-spendable (Terminal.or_i l r) t e h =
        with_mall-safe _ _ t e
        ∙ both_unsigned (spendable unsigned l) (spendable unsigned r) (safe-spendable l h.0)
            (safe-spendable r h.1)
    node_safe-spendable (Terminal.and_or x y z) t e h =
        with_mall-safe _ _ t e
        ∙ rw (safe-spendable x h.0, safe-spendable y h.1, safe-spendable z h.2)
            (branches_unsigned (spendable unsigned x) (spendable unsigned y) (spendable unsigned z))
    node_safe-spendable (Terminal.thresh k ss) t e h =
        with_mall-safe _ _ t e
        ∙ rw (length-map (λ s. s.mall) (tys ss)) (
            threshold_unsigned k (length (tys ss)) _ (spendable_count unsigned ss) h.1
              (omega (arith, safe_count-spendable ss empty_tally h.2)))
    node_safe-spendable (Terminal.multi n) t e h =
        ok-safe Fragment.multi t e ∙ few_keys B K n.k n.inner h.positive
    node_safe-spendable (Terminal.multi_a n) t e h =
        ok-safe Fragment.multi_a t e ∙ few_keys B K n.k n.inner h.positive
    node_safe-spendable Terminal.true t e h = ok-safe Fragment.type_true t e
    node_safe-spendable Terminal.false t e h = ok-safe Fragment.type_false t e
    node_safe-spendable (Terminal.pk_k pk) t e h = ok-safe Fragment.pk_k t e
    node_safe-spendable (Terminal.pk_h pk) t e h = ok-safe Fragment.pk_h t e
    node_safe-spendable (Terminal.raw_pk_h x) t e h = ok-safe Fragment.pk_h t e
    node_safe-spendable (Terminal.tx_template x) t e h = ok-safe Fragment.tx_template t e
    node_safe-spendable (Terminal.after n) t e h = ok-safe Fragment.time t e
    node_safe-spendable (Terminal.older n) t e h = ok-safe Fragment.time t e
    node_safe-spendable (Terminal.sha256 x) t e h = ok-safe Fragment.hash t e
    node_safe-spendable (Terminal.hash256 x) t e h = ok-safe Fragment.hash t e
    node_safe-spendable (Terminal.ripemd160 x) t e h = ok-safe Fragment.hash t e
    node_safe-spendable (Terminal.hash160 x) t e h = ok-safe Fragment.hash t e

    -- Each child is either safe or spendable.
    safe_count-spendable :
        (ss : Subs B K) (a : Tally)
        → EverySub Typed ss
        → (tally (map (λ s. s.mall) (tys ss)) a).safe_count + spendable_count unsigned ss
          ≡ a.safe_count + length (tys ss)
    safe_count-spendable nil a h = omega arith
    safe_count-spendable (cons s ss) a h =
        safe_step (spendable unsigned s) a.safe_count _ _ _
          (rw (sym (safe-spendable s h.0)) (safe_count-spendable ss _ h.1))

-- Of a tree that `from_ast` builds, `requires_sig` says exactly whether no branch can be taken with all
-- preimages and lock times, but without a signature or a committed transaction.
pub requires_sig-spendable :
    {B : Bitcoin} {K : MiniscriptKey} (size : Inscription → ℕ) (c : Context) (ms : Miniscript B K)
    → IsBuilt size c ms
    → requires_sig ms ≡ not (spendable unsigned ms)
requires_sig-spendable size c ms h = safe-spendable ms (
    Everywhere-map (Accepted size c) Typed (λ n t e a. Checked.ty (Accepted.checked a)) ms
      (IsBuilt-Accepted size c ms h))
