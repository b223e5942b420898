-- ===== src/Interpreter/Sound/Rules.antt =====
-- The base types of the children that `type_check` of src/miniscript/types/mod.rs accepts.
use rust_miniscript.Prelude.{
  ℕ, ◌+◌, zero, suc, All, Bool, true, false, List, [], ◌∷◌, map, Result, ok, ◌>>◌, guard, >>=-eq-ok,
  ◌≡◌, refl, sym,
}
use rust_miniscript.Types.Kinds.{Base, ErrorKind, base_eq}
use rust_miniscript.Types.Correctness.Wrappers
use rust_miniscript.Types.Correctness.Wrappers.{b_to, k_to, v_to}
use rust_miniscript.Types.Correctness.Combinators
use rust_miniscript.Types.Correctness.Combinators.{
  bw_base, and_v_base, or_d_base, or_c_base, or_i_base, and_or_base, threshold_child,
  threshold_loop, arg_count,
}
use rust_miniscript.Types.Fragment
use rust_miniscript.Types.Fragment.{Ty, with_mall}
use rust_miniscript.Interpreter.Sound.Bases.{
  base, with_mall-corr, b_to-ok, k_to-ok, v_to-ok, bw_base-ok, and_v_base-ok, or_d_base-ok,
  or_c_base-ok, or_i_base-ok, and_or_base-ok, base-bind, base-guard, base-guards, same_base,
  base-rest, is_boolean,
}

pub cast_check-base :
    (s t : Ty) → Fragment.cast_check s ≡ ok t → (base s ≡ Base.k) × (base t ≡ Base.b)
unfolding Fragment.cast_check Wrappers.cast_check
cast_check-base s t h = k_to-ok Base.b (base s) (base t) (
    base-bind (k_to Base.b (base s)) _ (base t) same_base
      (with_mall-corr (Wrappers.cast_check s.corr) _ t h))

pub cast_alt-base : (s t : Ty) → Fragment.cast_alt s ≡ ok t → (base s ≡ Base.b) × (base t ≡ Base.w)
unfolding Fragment.cast_alt Wrappers.cast_alt
cast_alt-base s t h = b_to-ok Base.w (base s) (base t) (
    base-bind (b_to Base.w (base s)) _ (base t) same_base
      (with_mall-corr (Wrappers.cast_alt s.corr) _ t h))

pub cast_swap-base :
    (s t : Ty) → Fragment.cast_swap s ≡ ok t → (base s ≡ Base.b) × (base t ≡ Base.w)
unfolding Fragment.cast_swap Wrappers.cast_swap
cast_swap-base s t h = b_to-ok Base.w (base s) (base t) (
    base-bind (b_to Base.w (base s)) _ (base t)
      (λ x y. base-rest (Wrappers.swap_input s.corr.input) _ x y (λ i. refl))
      (with_mall-corr (Wrappers.cast_swap s.corr) _ t h))

pub cast_dupif-base :
    (s t : Ty) → Fragment.cast_dupif s ≡ ok t → (base s ≡ Base.v) × (base t ≡ Base.b)
unfolding Fragment.cast_dupif Wrappers.cast_dupif
cast_dupif-base s t h = v_to-ok Base.b (base s) (base t) (
    base-bind (v_to Base.b (base s)) _ (base t)
      (λ x y. base-rest (Wrappers.dupif_input s.corr.input) _ x y (λ i. refl))
      (with_mall-corr (Wrappers.cast_dupif s.corr) _ t h))

pub cast_verify-base :
    (s t : Ty) → Fragment.cast_verify s ≡ ok t → (base s ≡ Base.b) × (base t ≡ Base.v)
unfolding Fragment.cast_verify Wrappers.cast_verify
cast_verify-base s t h = b_to-ok Base.v (base s) (base t) (
    base-bind (b_to Base.v (base s)) _ (base t) same_base
      (with_mall-corr (Wrappers.cast_verify s.corr) _ t h))

pub cast_nonzero-base :
    (s t : Ty) → Fragment.cast_nonzero s ≡ ok t → (base s ≡ Base.b) × (base t ≡ Base.b)
unfolding Fragment.cast_nonzero Wrappers.cast_nonzero
cast_nonzero-base s t h = b_to-ok Base.b (base s) (base t) (
    base-bind (b_to Base.b (base s)) _ (base t) same_base
      (base-guard _ _ _ (base t) (with_mall-corr (Wrappers.cast_nonzero s.corr) _ t h)))

pub cast_zeronotequal-base :
    (s t : Ty) → Fragment.cast_zeronotequal s ≡ ok t → (base s ≡ Base.b) × (base t ≡ Base.b)
unfolding Fragment.cast_zeronotequal Wrappers.cast_zeronotequal
cast_zeronotequal-base s t h = b_to-ok Base.b (base s) (base t) (
    base-bind (b_to Base.b (base s)) _ (base t) same_base
      (with_mall-corr (Wrappers.cast_zeronotequal s.corr) _ t h))

pub and_b-base :
    (l r t : Ty)
    → Fragment.and_b l r ≡ ok t
    → (base l ≡ Base.b) × (base r ≡ Base.w) × (base t ≡ Base.b)
unfolding Fragment.and_b Combinators.and_b
and_b-base l r t h = bw_base-ok (base l) (base r) (base t) (
    base-bind (bw_base (base l) (base r)) _ (base t) same_base
      (with_mall-corr (Combinators.and_b l.corr r.corr) _ t h))

pub or_b-base :
    (l r t : Ty)
    → Fragment.or_b l r ≡ ok t
    → (base l ≡ Base.b) × (base r ≡ Base.w) × (base t ≡ Base.b)
unfolding Fragment.or_b Combinators.or_b
or_b-base l r t h = bw_base-ok (base l) (base r) (base t) (
    base-guards l.corr.dissatisfiable r.corr.dissatisfiable ErrorKind.left_not_dissatisfiable
      ErrorKind.right_not_dissatisfiable (bw_base (base l) (base r)) _ (base t) same_base
      (with_mall-corr (Combinators.or_b l.corr r.corr) _ t h))

pub and_v-base : (l r t : Ty) → Fragment.and_v l r ≡ ok t → (base l ≡ Base.v) × (base r ≡ base t)
unfolding Fragment.and_v Combinators.and_v
and_v-base l r t h = and_v_base-ok (base l) (base r) (base t) (
    base-bind (and_v_base (base l) (base r)) _ (base t) same_base
      (with_mall-corr (Combinators.and_v l.corr r.corr) _ t h))

pub or_d-base : (l r t : Ty) → Fragment.or_d l r ≡ ok t → (base l ≡ Base.b) × (base r ≡ base t)
unfolding Fragment.or_d Combinators.or_d
or_d-base l r t h = or_d_base-ok (base l) (base r) (base t) (
    base-guards l.corr.dissatisfiable l.corr.unit ErrorKind.left_not_dissatisfiable
      ErrorKind.left_not_unit (or_d_base (base l) (base r)) _ (base t) same_base
      (with_mall-corr (Combinators.or_d l.corr r.corr) _ t h))

pub or_c-base :
    (l r t : Ty)
    → Fragment.or_c l r ≡ ok t
    → (base l ≡ Base.b) × (base r ≡ Base.v) × (base t ≡ Base.v)
unfolding Fragment.or_c Combinators.or_c
or_c-base l r t h = or_c_base-ok (base l) (base r) (base t) (
    base-guards l.corr.dissatisfiable l.corr.unit ErrorKind.left_not_dissatisfiable
      ErrorKind.left_not_unit (or_c_base (base l) (base r)) _ (base t) same_base
      (with_mall-corr (Combinators.or_c l.corr r.corr) _ t h))

pub or_i-base : (l r t : Ty) → Fragment.or_i l r ≡ ok t → (base l ≡ base t) × (base r ≡ base t)
unfolding Fragment.or_i Combinators.or_i
or_i-base l r t h = or_i_base-ok (base l) (base r) (base t) (
    base-bind (or_i_base (base l) (base r)) _ (base t) same_base
      (with_mall-corr (Combinators.or_i l.corr r.corr) _ t h))

pub and_or-base :
    (x y z t : Ty)
    → Fragment.and_or x y z ≡ ok t
    → (base x ≡ Base.b) × (base y ≡ base t) × (base z ≡ base t)
unfolding Fragment.and_or Combinators.and_or
and_or-base x y z t h = and_or_base-ok (base x) (base y) (base z) (base t) (
    base-guards x.corr.dissatisfiable x.corr.unit ErrorKind.left_not_dissatisfiable
      ErrorKind.left_not_unit (and_or_base (base x) (base y) (base z)) _ (base t) same_base
      (with_mall-corr (Combinators.and_or x.corr y.corr z.corr) _ t h))

child_boolean : (x : Base) (i : ℕ) → base_eq x (threshold_child i) ≡ true → is_boolean x ≡ true
child_boolean Base.b i h = refl
child_boolean Base.k i h = refl
child_boolean Base.w i h = refl
child_boolean Base.v zero h = cc
child_boolean Base.v (suc i) h = cc

guarded :
    (g h u : Bool) (d e f : ErrorKind) (r : Result ErrorKind ℕ) (n : ℕ)
    → (guard g d >> (guard h e >> (guard u f >> r))) ≡ ok n
    → (g ≡ true) × (r ≡ ok n)
guarded true true true d e f r n p = (refl, p)
guarded true true false d e f r n p = cc
guarded true false u d e f r n p = cc
guarded false h u d e f r n p = cc

loop-booleans :
    (ts : List Ty) (i args n : ℕ)
    → threshold_loop i args (map (λ t. t.corr) ts) ≡ ok n
    → All (λ t. is_boolean (base t) ≡ true) ts
unfolding threshold_loop
loop-booleans [] i args n h = tt
loop-booleans (t ∷ ts) i args n h =
    let args' = args + arg_count t.corr.input in
    let (child, rest) =
      guarded (base_eq (base t) (threshold_child i)) t.corr.unit t.corr.dissatisfiable
        (ErrorKind.threshold_base i (base t)) (ErrorKind.threshold_non_unit i)
        (ErrorKind.threshold_dissat i) (threshold_loop (suc i) args' (map (λ u. u.corr) ts)) n h in
    (child_boolean (base t) i child, loop-booleans ts (suc i) args' n rest)

pub threshold-base :
    (k : ℕ) (ts : List Ty) (t : Ty)
    → Fragment.threshold k ts ≡ ok t
    → All (λ u. is_boolean (base u) ≡ true) ts × (base t ≡ Base.b)
unfolding Fragment.threshold Combinators.threshold
threshold-base k ts t h =
    let (c, hc, _) = >>=-eq-ok (Combinators.threshold k (map (λ s. s.corr) ts)) _ h in
    let (n, hn, _) = >>=-eq-ok (threshold_loop 0 0 (map (λ s. s.corr) ts)) _ hc in
    (
      loop-booleans ts 0 0 n hn,
      sym (
          base-rest (threshold_loop 0 0 (map (λ s. s.corr) ts)) _ Base.b (base t) (λ m. refl)
            (with_mall-corr (Combinators.threshold k (map (λ s. s.corr) ts)) _ t h)),
    )
