-- ===== src/Types/Subtype.antt =====
-- `is_subtype` of src/miniscript/types as a relation, and the rules of the two halves. The
-- thresholds and the rules on whole types are in the children.
pub mod Threshold
pub mod Rules
use rust_miniscript.Prelude.{true, geb, ◌≡◌, Result, ok, err, arith}
use rust_miniscript.Types.Kinds.{ErrorKind, input_is_subtype, dissat_is_subtype}
use rust_miniscript.Types.Correctness.{Correctness}
use rust_miniscript.Types.Correctness.Wrappers
use rust_miniscript.Types.Correctness.Combinators
use rust_miniscript.Types.Malleability
use rust_miniscript.Types.Malleability.{Malleability}
use rust_miniscript.Types.Fragment
use rust_miniscript.Types.Fragment.{Ty}

-- `is_subtype` as a relation, the two halves apart.
pub record SubCorr (s t : Correctness) : Type 0 where
  pub base : s.base ≡ t.base
  pub input : input_is_subtype s.input t.input ≡ true
  pub dissatisfiable : geb s.dissatisfiable t.dissatisfiable ≡ true
  pub unit : geb s.unit t.unit ≡ true

pub record SubMall (s t : Malleability) : Type 0 where
  pub dissat : dissat_is_subtype s.dissat t.dissat ≡ true
  pub safe : geb s.safe t.safe ≡ true
  pub non_malleable : geb s.non_malleable t.non_malleable ≡ true

pub is_subtype_parts :
    (s t : Ty) → Fragment.is_subtype s t ≡ true → SubCorr s.corr t.corr × SubMall s.mall t.mall
unfolding Fragment.is_subtype
is_subtype_parts s t h = ground arith

pub is_subtype_of_parts :
    (s t : Ty) → SubCorr s.corr t.corr → SubMall s.mall t.mall → Fragment.is_subtype s t ≡ true
unfolding Fragment.is_subtype
is_subtype_of_parts s t h k = ground arith

-- Where the second rule succeeds, so does the first, with a subtype of its result.
abbrev pub RefinesCorr : Result ErrorKind Correctness → Result ErrorKind Correctness → Type 0
RefinesCorr _ (err e) = Unit
RefinesCorr (ok s) (ok t) = SubCorr s t
RefinesCorr (err e) (ok t) = ⊥

module _ (s t : Correctness) (h : SubCorr s t) where
  pub cast_alt-corr : RefinesCorr (Wrappers.cast_alt s) (Wrappers.cast_alt t)
  unfolding Wrappers.cast_alt
  cast_alt-corr = ground arith

  pub cast_swap-corr : RefinesCorr (Wrappers.cast_swap s) (Wrappers.cast_swap t)
  unfolding Wrappers.cast_swap
  cast_swap-corr = ground arith

  pub cast_check-corr : RefinesCorr (Wrappers.cast_check s) (Wrappers.cast_check t)
  unfolding Wrappers.cast_check
  cast_check-corr = ground arith

  pub cast_dupif-corr : RefinesCorr (Wrappers.cast_dupif s) (Wrappers.cast_dupif t)
  unfolding Wrappers.cast_dupif
  cast_dupif-corr = ground arith

  pub cast_verify-corr : RefinesCorr (Wrappers.cast_verify s) (Wrappers.cast_verify t)
  unfolding Wrappers.cast_verify
  cast_verify-corr = ground arith

  pub cast_nonzero-corr : RefinesCorr (Wrappers.cast_nonzero s) (Wrappers.cast_nonzero t)
  unfolding Wrappers.cast_nonzero
  cast_nonzero-corr = ground arith

  pub cast_zeronotequal-corr :
      RefinesCorr (Wrappers.cast_zeronotequal s) (Wrappers.cast_zeronotequal t)
  unfolding Wrappers.cast_zeronotequal
  cast_zeronotequal-corr = ground arith

  pub cast_true-corr : RefinesCorr (Wrappers.cast_true s) (Wrappers.cast_true t)
  unfolding Wrappers.cast_true
  cast_true-corr = ground arith

  pub cast_or_i_false-corr : RefinesCorr (Wrappers.cast_or_i_false s) (Wrappers.cast_or_i_false t)
  unfolding Wrappers.cast_or_i_false
  cast_or_i_false-corr = ground arith

module _ (s t : Malleability) (h : SubMall s t) where
  pub cast_alt-mall : SubMall (Malleability.cast_alt s) (Malleability.cast_alt t)
  unfolding Malleability.cast_alt
  cast_alt-mall = ground arith

  pub cast_swap-mall : SubMall (Malleability.cast_swap s) (Malleability.cast_swap t)
  unfolding Malleability.cast_swap
  cast_swap-mall = ground arith

  pub cast_check-mall : SubMall (Malleability.cast_check s) (Malleability.cast_check t)
  unfolding Malleability.cast_check
  cast_check-mall = ground arith

  pub cast_dupif-mall : SubMall (Malleability.cast_dupif s) (Malleability.cast_dupif t)
  unfolding Malleability.cast_dupif
  cast_dupif-mall = ground arith

  pub cast_verify-mall : SubMall (Malleability.cast_verify s) (Malleability.cast_verify t)
  unfolding Malleability.cast_verify
  cast_verify-mall = ground arith

  pub cast_nonzero-mall : SubMall (Malleability.cast_nonzero s) (Malleability.cast_nonzero t)
  unfolding Malleability.cast_nonzero
  cast_nonzero-mall = ground arith

  pub cast_zeronotequal-mall :
      SubMall (Malleability.cast_zeronotequal s) (Malleability.cast_zeronotequal t)
  unfolding Malleability.cast_zeronotequal
  cast_zeronotequal-mall = ground arith

  pub cast_true-mall : SubMall (Malleability.cast_true s) (Malleability.cast_true t)
  unfolding Malleability.cast_true
  cast_true-mall = ground arith

  pub cast_or_i_false-mall :
      SubMall (Malleability.cast_or_i_false s) (Malleability.cast_or_i_false t)
  unfolding Malleability.cast_or_i_false
  cast_or_i_false-mall = ground arith

module _ (l r l' r' : Correctness) (hl : SubCorr l l') (hr : SubCorr r r') where
  pub and_b-corr : RefinesCorr (Combinators.and_b l r) (Combinators.and_b l' r')
  unfolding Combinators.and_b Combinators.and_input
  and_b-corr = ground arith

  pub and_v-corr : RefinesCorr (Combinators.and_v l r) (Combinators.and_v l' r')
  unfolding Combinators.and_v Combinators.and_input
  and_v-corr = ground arith

  pub or_b-corr : RefinesCorr (Combinators.or_b l r) (Combinators.or_b l' r')
  unfolding Combinators.or_b Combinators.or_b_input
  or_b-corr = ground arith

  pub or_d-corr : RefinesCorr (Combinators.or_d l r) (Combinators.or_d l' r')
  unfolding Combinators.or_d Combinators.or_d_input
  or_d-corr = ground arith

  pub or_c-corr : RefinesCorr (Combinators.or_c l r) (Combinators.or_c l' r')
  unfolding Combinators.or_c Combinators.or_d_input
  or_c-corr = ground arith

  pub or_i-corr : RefinesCorr (Combinators.or_i l r) (Combinators.or_i l' r')
  unfolding Combinators.or_i Combinators.or_i_input
  or_i-corr = ground arith

module _ (l r l' r' : Malleability) (hl : SubMall l l') (hr : SubMall r r') where
  pub and_b-mall : SubMall (Malleability.and_b l r) (Malleability.and_b l' r')
  unfolding Malleability.and_b Malleability.and_b_dissat
  and_b-mall = ground arith

  pub and_v-mall : SubMall (Malleability.and_v l r) (Malleability.and_v l' r')
  unfolding Malleability.and_v Malleability.and_v_dissat
  and_v-mall = ground arith

  pub or_b-mall : SubMall (Malleability.or_b l r) (Malleability.or_b l' r')
  unfolding Malleability.or_b
  or_b-mall = ground arith

  pub or_d-mall : SubMall (Malleability.or_d l r) (Malleability.or_d l' r')
  unfolding Malleability.or_d
  or_d-mall = ground arith

  pub or_c-mall : SubMall (Malleability.or_c l r) (Malleability.or_c l' r')
  unfolding Malleability.or_c
  or_c-mall = ground arith

  pub or_i-mall : SubMall (Malleability.or_i l r) (Malleability.or_i l' r')
  unfolding Malleability.or_i Malleability.or_i_dissat
  or_i-mall = ground arith

module _ (x y z x' y' z' : Correctness) (hx : SubCorr x x') (hy : SubCorr y y')
    (hz : SubCorr z z') where
  and_or_input_mono :
      input_is_subtype
        (Combinators.and_or_input x.input y.input z.input)
        (Combinators.and_or_input x'.input y'.input z'.input)
      ≡ true
  unfolding Combinators.and_or_input
  and_or_input_mono = ground arith

  pub and_or-corr : RefinesCorr (Combinators.and_or x y z) (Combinators.and_or x' y' z')
  unfolding Combinators.and_or
  and_or-corr = ground (arith, and_or_input_mono)

module _ (x y z x' y' z' : Malleability) (hx : SubMall x x') (hy : SubMall y y')
    (hz : SubMall z z') where
  pub and_or-mall : SubMall (Malleability.and_or x y z) (Malleability.and_or x' y' z')
  unfolding Malleability.and_or Malleability.and_or_dissat
  and_or-mall = ground arith
