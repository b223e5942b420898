-- ===== src/Types/Subtype/Rules.antt =====
-- The rules of `Type` in src/miniscript/types/mod.rs and `is_subtype`.
use rust_miniscript.Prelude.{ℕ, List, [], ◌∷◌, map, All₂, Result, ok, err, true, ◌≡◌}
use rust_miniscript.Types.Kinds.{ErrorKind}
use rust_miniscript.Types.Correctness.{Correctness}
use rust_miniscript.Types.Correctness.Wrappers
use rust_miniscript.Types.Correctness.Combinators
use rust_miniscript.Types.Malleability.{Malleability}
use rust_miniscript.Types.Fragment
use rust_miniscript.Types.Fragment.{Ty, with_mall}
use rust_miniscript.Types.Subtype
use rust_miniscript.Types.Subtype.{SubCorr, SubMall, RefinesCorr}
use rust_miniscript.Types.Subtype.Threshold.{threshold-corr, threshold-mall}

pub record SubTy (s t : Ty) : Type 0 where
  pub corr : SubCorr s.corr t.corr
  pub mall : SubMall s.mall t.mall

-- `is_subtype` decides the relation.
pub is_subtype→SubTy : (s t : Ty) → Fragment.is_subtype s t ≡ true → SubTy s t
is_subtype→SubTy s t h =
    let (c, m) = Subtype.is_subtype_parts s t h in record { corr = c; mall = m }

pub SubTy→is_subtype : (s t : Ty) → SubTy s t → Fragment.is_subtype s t ≡ true
SubTy→is_subtype s t h = Subtype.is_subtype_of_parts s t h.corr h.mall

-- Where the second result is a type, the first is a subtype of it.
abbrev pub Refines : {E : Type 0} → Result E Ty → Result E Ty → Type 0
Refines _ (err e) = Unit
Refines (ok s) (ok t) = SubTy s t
Refines (err e) (ok t) = ⊥

with_mall-Refines :
    (c d : Result ErrorKind Correctness) (m n : Malleability)
    → RefinesCorr c d
    → SubMall m n
    → Refines (with_mall c m) (with_mall d n)
with_mall-Refines (ok c) (ok d) m n h k = record { corr = h; mall = k }
with_mall-Refines (ok c) (err e) m n h k = tt
with_mall-Refines (err e) (ok d) m n h k = absurd h
with_mall-Refines (err e) (err e') m n h k = tt

module _ (s t : Ty) (h : SubTy s t) where
  pub cast_alt-Refines : Refines (Fragment.cast_alt s) (Fragment.cast_alt t)
  unfolding Fragment.cast_alt
  cast_alt-Refines =
      with_mall-Refines (Wrappers.cast_alt s.corr) (Wrappers.cast_alt t.corr) _ _
        (Subtype.cast_alt-corr s.corr t.corr h.corr) (Subtype.cast_alt-mall s.mall t.mall h.mall)

  pub cast_swap-Refines : Refines (Fragment.cast_swap s) (Fragment.cast_swap t)
  unfolding Fragment.cast_swap
  cast_swap-Refines =
      with_mall-Refines (Wrappers.cast_swap s.corr) (Wrappers.cast_swap t.corr) _ _
        (Subtype.cast_swap-corr s.corr t.corr h.corr) (Subtype.cast_swap-mall s.mall t.mall h.mall)

  pub cast_check-Refines : Refines (Fragment.cast_check s) (Fragment.cast_check t)
  unfolding Fragment.cast_check
  cast_check-Refines =
      with_mall-Refines (Wrappers.cast_check s.corr) (Wrappers.cast_check t.corr) _ _
        (Subtype.cast_check-corr s.corr t.corr h.corr)
        (Subtype.cast_check-mall s.mall t.mall h.mall)

  pub cast_dupif-Refines : Refines (Fragment.cast_dupif s) (Fragment.cast_dupif t)
  unfolding Fragment.cast_dupif
  cast_dupif-Refines =
      with_mall-Refines (Wrappers.cast_dupif s.corr) (Wrappers.cast_dupif t.corr) _ _
        (Subtype.cast_dupif-corr s.corr t.corr h.corr)
        (Subtype.cast_dupif-mall s.mall t.mall h.mall)

  pub cast_verify-Refines : Refines (Fragment.cast_verify s) (Fragment.cast_verify t)
  unfolding Fragment.cast_verify
  cast_verify-Refines =
      with_mall-Refines (Wrappers.cast_verify s.corr) (Wrappers.cast_verify t.corr) _ _
        (Subtype.cast_verify-corr s.corr t.corr h.corr)
        (Subtype.cast_verify-mall s.mall t.mall h.mall)

  pub cast_nonzero-Refines : Refines (Fragment.cast_nonzero s) (Fragment.cast_nonzero t)
  unfolding Fragment.cast_nonzero
  cast_nonzero-Refines =
      with_mall-Refines (Wrappers.cast_nonzero s.corr) (Wrappers.cast_nonzero t.corr) _ _
        (Subtype.cast_nonzero-corr s.corr t.corr h.corr)
        (Subtype.cast_nonzero-mall s.mall t.mall h.mall)

  pub cast_zeronotequal-Refines :
      Refines (Fragment.cast_zeronotequal s) (Fragment.cast_zeronotequal t)
  unfolding Fragment.cast_zeronotequal
  cast_zeronotequal-Refines =
      with_mall-Refines (Wrappers.cast_zeronotequal s.corr) (Wrappers.cast_zeronotequal t.corr) _ _
        (Subtype.cast_zeronotequal-corr s.corr t.corr h.corr)
        (Subtype.cast_zeronotequal-mall s.mall t.mall h.mall)

  pub cast_true-Refines : Refines (Fragment.cast_true s) (Fragment.cast_true t)
  unfolding Fragment.cast_true
  cast_true-Refines =
      with_mall-Refines (Wrappers.cast_true s.corr) (Wrappers.cast_true t.corr) _ _
        (Subtype.cast_true-corr s.corr t.corr h.corr) (Subtype.cast_true-mall s.mall t.mall h.mall)

  pub cast_unlikely-Refines : Refines (Fragment.cast_unlikely s) (Fragment.cast_unlikely t)
  unfolding Fragment.cast_unlikely
  cast_unlikely-Refines =
      with_mall-Refines (Wrappers.cast_or_i_false s.corr) (Wrappers.cast_or_i_false t.corr) _ _
        (Subtype.cast_or_i_false-corr s.corr t.corr h.corr)
        (Subtype.cast_or_i_false-mall s.mall t.mall h.mall)

  pub cast_likely-Refines : Refines (Fragment.cast_likely s) (Fragment.cast_likely t)
  unfolding Fragment.cast_likely
  cast_likely-Refines =
      with_mall-Refines (Wrappers.cast_or_i_false s.corr) (Wrappers.cast_or_i_false t.corr) _ _
        (Subtype.cast_or_i_false-corr s.corr t.corr h.corr)
        (Subtype.cast_or_i_false-mall s.mall t.mall h.mall)

module _ (l r l' r' : Ty) (hl : SubTy l l') (hr : SubTy r r') where
  pub and_b-Refines : Refines (Fragment.and_b l r) (Fragment.and_b l' r')
  unfolding Fragment.and_b
  and_b-Refines =
      with_mall-Refines (Combinators.and_b l.corr r.corr) (Combinators.and_b l'.corr r'.corr) _ _
        (Subtype.and_b-corr l.corr r.corr l'.corr r'.corr hl.corr hr.corr)
        (Subtype.and_b-mall l.mall r.mall l'.mall r'.mall hl.mall hr.mall)

  pub and_v-Refines : Refines (Fragment.and_v l r) (Fragment.and_v l' r')
  unfolding Fragment.and_v
  and_v-Refines =
      with_mall-Refines (Combinators.and_v l.corr r.corr) (Combinators.and_v l'.corr r'.corr) _ _
        (Subtype.and_v-corr l.corr r.corr l'.corr r'.corr hl.corr hr.corr)
        (Subtype.and_v-mall l.mall r.mall l'.mall r'.mall hl.mall hr.mall)

  pub or_b-Refines : Refines (Fragment.or_b l r) (Fragment.or_b l' r')
  unfolding Fragment.or_b
  or_b-Refines =
      with_mall-Refines (Combinators.or_b l.corr r.corr) (Combinators.or_b l'.corr r'.corr) _ _
        (Subtype.or_b-corr l.corr r.corr l'.corr r'.corr hl.corr hr.corr)
        (Subtype.or_b-mall l.mall r.mall l'.mall r'.mall hl.mall hr.mall)

  pub or_d-Refines : Refines (Fragment.or_d l r) (Fragment.or_d l' r')
  unfolding Fragment.or_d
  or_d-Refines =
      with_mall-Refines (Combinators.or_d l.corr r.corr) (Combinators.or_d l'.corr r'.corr) _ _
        (Subtype.or_d-corr l.corr r.corr l'.corr r'.corr hl.corr hr.corr)
        (Subtype.or_d-mall l.mall r.mall l'.mall r'.mall hl.mall hr.mall)

  pub or_c-Refines : Refines (Fragment.or_c l r) (Fragment.or_c l' r')
  unfolding Fragment.or_c
  or_c-Refines =
      with_mall-Refines (Combinators.or_c l.corr r.corr) (Combinators.or_c l'.corr r'.corr) _ _
        (Subtype.or_c-corr l.corr r.corr l'.corr r'.corr hl.corr hr.corr)
        (Subtype.or_c-mall l.mall r.mall l'.mall r'.mall hl.mall hr.mall)

  pub or_i-Refines : Refines (Fragment.or_i l r) (Fragment.or_i l' r')
  unfolding Fragment.or_i
  or_i-Refines =
      with_mall-Refines (Combinators.or_i l.corr r.corr) (Combinators.or_i l'.corr r'.corr) _ _
        (Subtype.or_i-corr l.corr r.corr l'.corr r'.corr hl.corr hr.corr)
        (Subtype.or_i-mall l.mall r.mall l'.mall r'.mall hl.mall hr.mall)

module _ (x y z x' y' z' : Ty) (hx : SubTy x x') (hy : SubTy y y') (hz : SubTy z z') where
  pub and_or-Refines : Refines (Fragment.and_or x y z) (Fragment.and_or x' y' z')
  unfolding Fragment.and_or
  and_or-Refines =
      with_mall-Refines (Combinators.and_or x.corr y.corr z.corr)
        (Combinators.and_or x'.corr y'.corr z'.corr) _ _
        (Subtype.and_or-corr x.corr y.corr z.corr x'.corr y'.corr z'.corr hx.corr hy.corr hz.corr)
        (Subtype.and_or-mall x.mall y.mall z.mall x'.mall y'.mall z'.mall hx.mall hy.mall hz.mall)

All₂-corr :
    (xs ys : List Ty)
    → All₂ SubTy xs ys
    → All₂ SubCorr (map (λ s. s.corr) xs) (map (λ s. s.corr) ys)
All₂-corr [] [] h = h
All₂-corr [] (y ∷ ys) h = h
All₂-corr (x ∷ xs) [] h = h
All₂-corr (x ∷ xs) (y ∷ ys) h = (h.0.corr, All₂-corr xs ys h.1)

All₂-mall :
    (xs ys : List Ty)
    → All₂ SubTy xs ys
    → All₂ SubMall (map (λ s. s.mall) xs) (map (λ s. s.mall) ys)
All₂-mall [] [] h = h
All₂-mall [] (y ∷ ys) h = h
All₂-mall (x ∷ xs) [] h = h
All₂-mall (x ∷ xs) (y ∷ ys) h = (h.0.mall, All₂-mall xs ys h.1)

pub threshold-Refines :
    (k : ℕ) (xs ys : List Ty)
    → All₂ SubTy xs ys
    → Refines (Fragment.threshold k xs) (Fragment.threshold k ys)
unfolding Fragment.threshold
threshold-Refines k xs ys h =
    with_mall-Refines (Combinators.threshold k (map (λ s. s.corr) xs))
      (Combinators.threshold k (map (λ s. s.corr) ys)) _ _
      (threshold-corr k _ _ (All₂-corr xs ys h)) (threshold-mall k _ _ (All₂-mall xs ys h))
