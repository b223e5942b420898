-- ===== src/Types/Subtype/Threshold.antt =====
-- The two `threshold` rules of src/miniscript/types and `is_subtype`.
use rust_miniscript.Prelude.{
  ℕ, suc, ◌+◌, ◌≤◌, true, geb, ◌≡◌, refl, ap, List, [], ◌∷◌, length, All₂, Result, ok, err, ◌>>=◌,
  arith, ◌&&◌, from_bool,
}
use rust_miniscript.Types.Kinds.{Base, Input, Dissat, ErrorKind, input_is_subtype, dissat_eq}
use rust_miniscript.Types.Correctness.{Correctness}
use rust_miniscript.Types.Correctness.Combinators.{
  arg_count, threshold_loop, threshold, threshold_input,
}
use rust_miniscript.Types.Malleability
use rust_miniscript.Types.Malleability.{Malleability, Tally, tally, threshold_of}
use rust_miniscript.Types.Subtype.{SubCorr, SubMall, RefinesCorr}

-- Counts that decide the same input property: below two they agree.
abbrev SubCount : ℕ → ℕ → Type 0
SubCount n m = m ≤ 1 → n ≡ m

abbrev RefinesCount : Result ErrorKind ℕ → Result ErrorKind ℕ → Type 0
RefinesCount _ (err e) = Unit
RefinesCount (ok n) (ok m) = SubCount n m
RefinesCount (err e) (ok m) = ⊥

arg_count-SubCount :
    (x y : Input) → input_is_subtype x y ≡ true → SubCount (arg_count x) (arg_count y)
arg_count-SubCount x y h = ground arith

add-SubCount : (n m a b : ℕ) → SubCount n m → SubCount a b → SubCount (n + a) (m + b)
add-SubCount n m a b h k le = omega arith

threshold_loop-Refines :
    (i n m : ℕ) (xs ys : List Correctness)
    → SubCount n m
    → All₂ SubCorr xs ys
    → RefinesCount (threshold_loop i n xs) (threshold_loop i m ys)
unfolding threshold_loop
threshold_loop-Refines i n m [] [] h k = h
threshold_loop-Refines i n m [] (y ∷ ys) h k = absurd k
threshold_loop-Refines i n m (x ∷ xs) [] h k = absurd k
threshold_loop-Refines i n m (x ∷ xs) (y ∷ ys) h k =
    let count = add-SubCount n m _ _ h (arg_count-SubCount x.input y.input k.0.input) in
    let rest =
      threshold_loop-Refines (suc i) (n + arg_count x.input) (m + arg_count y.input) xs ys count
        k.1 in
    ground (arith, rest)

threshold_input_mono :
    (n m : ℕ) → SubCount n m → input_is_subtype (threshold_input n) (threshold_input m) ≡ true
threshold_input_mono n m h = ground arith

threshold-corr-of-count :
    (r r' : Result ErrorKind ℕ)
    → RefinesCount r r'
    → RefinesCorr
        (do
          num_args ← r
          ok (record {
            base = Base.b;
            input = threshold_input num_args;
            dissatisfiable = true;
            unit = true;
          }))
        (do
          num_args ← r'
          ok (record {
            base = Base.b;
            input = threshold_input num_args;
            dissatisfiable = true;
            unit = true;
          }))
threshold-corr-of-count (ok n) (ok m) h = ground (arith, threshold_input_mono n m h)
threshold-corr-of-count (err e) (ok m) h = absurd h
threshold-corr-of-count (ok n) (err e) h = tt
threshold-corr-of-count (err e) (err e') h = tt

pub threshold-corr :
    (k : ℕ) (xs ys : List Correctness)
    → All₂ SubCorr xs ys
    → RefinesCorr (threshold k xs) (threshold k ys)
unfolding threshold
threshold-corr k xs ys h =
    threshold-corr-of-count (threshold_loop 0 0 xs) (threshold_loop 0 0 ys)
      (threshold_loop-Refines 0 0 0 xs ys (λ _. refl) h)

-- The tally of the subtypes dominates that of the supertypes.
record Dominates (t u : Tally) : Type 0 where
  safe_count : u.safe_count ≤ t.safe_count
  all_are_dissat_unique : geb t.all_are_dissat_unique u.all_are_dissat_unique ≡ true
  all_are_non_malleable : geb t.all_are_non_malleable u.all_are_non_malleable ≡ true

module _ (x y : Malleability) (h : SubMall x y) (t u : Tally) (d : Dominates t u) where
  Dominates-step :
      Dominates
        (record {
          safe_count = t.safe_count + from_bool x.safe;
          all_are_dissat_unique = t.all_are_dissat_unique && dissat_eq x.dissat Dissat.unique;
          all_are_non_malleable = t.all_are_non_malleable && x.non_malleable;
        })
        (record {
          safe_count = u.safe_count + from_bool y.safe;
          all_are_dissat_unique = u.all_are_dissat_unique && dissat_eq y.dissat Dissat.unique;
          all_are_non_malleable = u.all_are_non_malleable && y.non_malleable;
        })
  Dominates-step = ground arith

tally-Dominates :
    (xs ys : List Malleability) (t u : Tally)
    → All₂ SubMall xs ys
    → Dominates t u
    → Dominates (tally xs t) (tally ys u)
unfolding tally
tally-Dominates [] [] t u h d = d
tally-Dominates [] (y ∷ ys) t u h d = absurd h
tally-Dominates (x ∷ xs) [] t u h d = absurd h
tally-Dominates (x ∷ xs) (y ∷ ys) t u h d =
    tally-Dominates xs ys _ _ h.1 (Dominates-step x y h.0 t u d)

pub safe_count-tally-le :
    (xs : List Malleability) (t : Tally) → (tally xs t).safe_count ≤ t.safe_count + length xs
unfolding tally
safe_count-tally-le [] t = omega arith
safe_count-tally-le (x ∷ xs) t = ground (
  arith,
  safe_count-tally-le xs (record {
    safe_count = t.safe_count + from_bool x.safe;
    all_are_dissat_unique = t.all_are_dissat_unique && dissat_eq x.dissat Dissat.unique;
    all_are_non_malleable = t.all_are_non_malleable && x.non_malleable;
  }),
)

All₂-length :
    {A : Type 0} (R : A → A → Type 0) (xs ys : List A) → All₂ R xs ys → length xs ≡ length ys
All₂-length R [] [] h = refl
All₂-length R [] (y ∷ ys) h = absurd h
All₂-length R (x ∷ xs) [] h = absurd h
All₂-length R (x ∷ xs) (y ∷ ys) h = ap suc (All₂-length R xs ys h.1)

threshold_of_mono :
    (n k : ℕ) (t u : Tally)
    → t.safe_count ≤ n
    → Dominates t u
    → SubMall (threshold_of n k t) (threshold_of n k u)
threshold_of_mono n k t u le d = ground arith

abbrev empty_tally : Tally
empty_tally = record { safe_count = 0; all_are_dissat_unique = true; all_are_non_malleable = true }

pub threshold-mall :
    (k : ℕ) (xs ys : List Malleability)
    → All₂ SubMall xs ys
    → SubMall (Malleability.threshold k xs) (Malleability.threshold k ys)
unfolding Malleability.threshold
threshold-mall k xs ys h = rw (← All₂-length SubMall xs ys h) (
    threshold_of_mono (length xs) k _ _ (omega (arith, safe_count-tally-le xs empty_tally))
      (tally-Dominates xs ys empty_tally empty_tally h (ground arith)))
