-- ===== src/Types/Sanity.antt =====
-- The invariant behind `sanity_checks` of src/miniscript/types, rule by rule.
use rust_miniscript.Prelude.{
  ℕ, suc, ◌+◌, ◌≤◌, true, false, ◌≡◌, ◌≢◌, List, [], ◌∷◌, map, length, All, ok, arith, >>=-eq-ok,
}
use rust_miniscript.Types.Kinds.{Base, Input, Dissat}
use rust_miniscript.Types.Fragment.{Ty}
use rust_miniscript.Types.Fragment
use rust_miniscript.Types.Correctness
use rust_miniscript.Types.Correctness.{Correctness}
use rust_miniscript.Types.Correctness.Combinators
use rust_miniscript.Types.Malleability

pub record IsSane (t : Ty) : Type 0 where
  pub key :
      t.corr.base ≡ Base.k
      → (t.corr.unit ≡ true) × (t.mall.safe ≡ true) × (t.corr.input ≢ Input.zero)
  pub verify :
      t.corr.base ≡ Base.v
      → (t.corr.unit ≡ false) × (t.corr.dissatisfiable ≡ false) × (t.mall.dissat ≡ Dissat.none)
  pub wrapped : t.corr.base ≡ Base.w → t.corr.input ≡ Input.any
  pub dissatisfied : t.corr.dissatisfiable ≡ true → t.mall.dissat ≢ Dissat.none
  pub zero_unique :
      t.corr.input ≡ Input.zero
      → t.corr.dissatisfiable ≡ true
      → (t.mall.dissat ≡ Dissat.unique) × (t.mall.safe ≡ true)
  pub zero_non_malleable : t.corr.input ≡ Input.zero → t.mall.non_malleable ≡ true

pub cast_alt-IsSane : (s : Ty) {t : Ty} → IsSane s → Fragment.cast_alt s ≡ ok t → IsSane t
unfolding Fragment.cast_alt
cast_alt-IsSane s h e = ground arith

pub cast_swap-IsSane : (s : Ty) {t : Ty} → IsSane s → Fragment.cast_swap s ≡ ok t → IsSane t
unfolding Fragment.cast_swap
cast_swap-IsSane s h e = ground arith

pub cast_check-IsSane : (s : Ty) {t : Ty} → IsSane s → Fragment.cast_check s ≡ ok t → IsSane t
unfolding Fragment.cast_check
cast_check-IsSane s h e = ground arith

pub cast_dupif-IsSane : (s : Ty) {t : Ty} → IsSane s → Fragment.cast_dupif s ≡ ok t → IsSane t
unfolding Fragment.cast_dupif
cast_dupif-IsSane s h e = ground arith

pub cast_verify-IsSane : (s : Ty) {t : Ty} → IsSane s → Fragment.cast_verify s ≡ ok t → IsSane t
unfolding Fragment.cast_verify
cast_verify-IsSane s h e = ground arith

pub cast_nonzero-IsSane : (s : Ty) {t : Ty} → IsSane s → Fragment.cast_nonzero s ≡ ok t → IsSane t
unfolding Fragment.cast_nonzero
cast_nonzero-IsSane s h e = ground arith

pub cast_zeronotequal-IsSane :
    (s : Ty) {t : Ty} → IsSane s → Fragment.cast_zeronotequal s ≡ ok t → IsSane t
unfolding Fragment.cast_zeronotequal
cast_zeronotequal-IsSane s h e = ground arith

pub cast_true-IsSane : (s : Ty) {t : Ty} → IsSane s → Fragment.cast_true s ≡ ok t → IsSane t
unfolding Fragment.cast_true
cast_true-IsSane s h e = ground arith

pub cast_unlikely-IsSane : (s : Ty) {t : Ty} → IsSane s → Fragment.cast_unlikely s ≡ ok t → IsSane t
unfolding Fragment.cast_unlikely
cast_unlikely-IsSane s h e = ground arith

pub cast_likely-IsSane : (s : Ty) {t : Ty} → IsSane s → Fragment.cast_likely s ≡ ok t → IsSane t
unfolding Fragment.cast_likely
cast_likely-IsSane s h e = ground arith

pub and_b-IsSane : (l r : Ty) {t : Ty} → IsSane l → IsSane r → Fragment.and_b l r ≡ ok t → IsSane t
unfolding Fragment.and_b Combinators.and_input Malleability.and_b_dissat
and_b-IsSane l r hl hr e = ground arith

pub and_v-IsSane : (l r : Ty) {t : Ty} → IsSane l → IsSane r → Fragment.and_v l r ≡ ok t → IsSane t
unfolding Fragment.and_v Combinators.and_input Malleability.and_v_dissat
and_v-IsSane l r hl hr e = ground arith

pub or_b-IsSane : (l r : Ty) {t : Ty} → IsSane l → IsSane r → Fragment.or_b l r ≡ ok t → IsSane t
unfolding Fragment.or_b Combinators.or_b_input
or_b-IsSane l r hl hr e = ground arith

pub or_d-IsSane : (l r : Ty) {t : Ty} → IsSane l → IsSane r → Fragment.or_d l r ≡ ok t → IsSane t
unfolding Fragment.or_d Combinators.or_d_input
or_d-IsSane l r hl hr e = ground arith

pub or_c-IsSane : (l r : Ty) {t : Ty} → IsSane l → IsSane r → Fragment.or_c l r ≡ ok t → IsSane t
unfolding Fragment.or_c Combinators.or_d_input
or_c-IsSane l r hl hr e = ground arith

pub or_i-IsSane : (l r : Ty) {t : Ty} → IsSane l → IsSane r → Fragment.or_i l r ≡ ok t → IsSane t
unfolding Fragment.or_i Combinators.or_i_input Malleability.or_i_dissat
or_i-IsSane l r hl hr e = ground arith

pub and_or-IsSane :
    (x y z : Ty) {t : Ty} → IsSane x → IsSane y → IsSane z → Fragment.and_or x y z ≡ ok t → IsSane t
unfolding Fragment.and_or Combinators.and_or_input Malleability.and_or_dissat
and_or-IsSane x y z hx hy hz e = ground arith

pub IsSane-sanity_checks : (t : Ty) → IsSane t → Fragment.sanity_checks t ≡ true
unfolding Fragment.sanity_checks
IsSane-sanity_checks t h = ground arith

pub IsSane-correctness : (t : Ty) → IsSane t → Correctness.sanity_checks t.corr ≡ true
unfolding Correctness.sanity_checks
IsSane-correctness t h = ground arith

threshold_loop-le :
    (i n : ℕ) (subs : List Correctness) (m : ℕ) → Combinators.threshold_loop i n subs ≡ ok m → n ≤ m
unfolding Combinators.threshold_loop
threshold_loop-le i n [] m e = ground arith
threshold_loop-le i n (c ∷ cs) m e =
    ground (arith, threshold_loop-le (suc i) (n + Combinators.arg_count c.input) cs m)

-- A second child is a `W`.
threshold_loop_second :
    (c₁ c₂ : Correctness) (cs : List Correctness) (m : ℕ)
    → Combinators.threshold_loop 0 0 (c₁ ∷ c₂ ∷ cs) ≡ ok m
    → (c₂.base ≡ Base.w) × (Combinators.arg_count c₂.input ≤ m)
unfolding Combinators.threshold_loop
threshold_loop_second c₁ c₂ cs m e = ground (
  arith,
  threshold_loop-le 2 (0 + Combinators.arg_count c₁.input + Combinators.arg_count c₂.input) cs m,
)

-- It takes any number of inputs, and then the whole does too.
threshold_two-IsSane :
    (k : ℕ) (s₁ s₂ : Ty) (ss : List Ty) {t : Ty}
    → IsSane s₂
    → Fragment.threshold k (s₁ ∷ s₂ ∷ ss) ≡ ok t
    → IsSane t
unfolding Fragment.threshold
threshold_two-IsSane k s₁ s₂ ss h e =
    let cs : List Correctness = map (λ (s : Ty). s.corr) ss in
    let (c, ec, et) = >>=-eq-ok (Combinators.threshold k (s₁.corr ∷ s₂.corr ∷ cs)) _ e in
    let (m, em, ek) = >>=-eq-ok (Combinators.threshold_loop 0 0 (s₁.corr ∷ s₂.corr ∷ cs)) _ ec in
    let second = threshold_loop_second s₁.corr s₂.corr cs m em in ground arith

threshold_one-IsSane :
    (k : ℕ) (s : Ty) {t : Ty} → 1 ≤ k → IsSane s → Fragment.threshold k (s ∷ []) ≡ ok t → IsSane t
unfolding Fragment.threshold
threshold_one-IsSane k s hk h e = ground arith

-- A threshold of at least one child, with a positive `k`.
pub threshold-IsSane :
    (k : ℕ) (ss : List Ty) {t : Ty}
    → 1 ≤ k
    → 1 ≤ length ss
    → All IsSane ss
    → Fragment.threshold k ss ≡ ok t
    → IsSane t
threshold-IsSane k [] hk hn h e = absurd (omega arith)
threshold-IsSane k (s ∷ []) hk hn h e = threshold_one-IsSane k s hk h.0 e
threshold-IsSane k (s₁ ∷ s₂ ∷ ss) hk hn h e = threshold_two-IsSane k s₁ s₂ ss h.1.0 e
