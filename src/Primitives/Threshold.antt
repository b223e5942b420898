-- ===== src/Primitives/Threshold.antt =====
-- src/primitives/threshold.rs. The constant parameter `MAX` is an argument, 0 for no maximum.
pub mod Valid
use rust_miniscript.Prelude.{
  ℕ, suc, ◌==◌, ltb, Bool, true, false, ◌&&◌, ◌||◌, Option, none, some, List, [], ◌∷◌, map, length,
  Result, ok, err, ◌>>=◌, ◌>>◌, if◌then◌else◌,
}

pub record ThresholdError : Type 0 where
  pub k : ℕ
  pub n : ℕ
  pub max : Option ℕ

pub record Threshold {ℓ} (T : Type ℓ) : Type ℓ where
  pub k : ℕ
  pub inner : List T

unfoldable pub validate_k_n : ℕ → ℕ → ℕ → Result ThresholdError (Unit {0})
validate_k_n max k n =
    if k == 0 || ltb n k || (ltb 0 max && ltb max n)
    then err (record { k = k; n = n; max = if ltb 0 max then some max else none })
    else ok tt

module _ {ℓ} {T : Type ℓ} where
  unfoldable pub new : ℕ → ℕ → List T → Result ThresholdError (Threshold T)
  unfolding validate_k_n
  new max k inner = do validate_k_n max k (length inner); ok (record { k = k; inner = inner })

  -- `Threshold::or` and `Threshold::and`.
  unfoldable pub or : T → T → Threshold T
  or left right = record { k = 1; inner = left ∷ right ∷ [] }

  unfoldable pub and : T → T → Threshold T
  and left right = record { k = 2; inner = left ∷ right ∷ [] }

  unfoldable pub is_or : Threshold T → Bool
  is_or t = t.k == 1

  unfoldable pub is_and : Threshold T → Bool
  is_and t = t.k == length t.inner

  unfoldable pub set_maximum : ℕ → Threshold T → Result ThresholdError (Threshold T)
  unfolding new
  set_maximum new_max t = new new_max t.k t.inner

  unfoldable pub forget_maximum : Threshold T → Threshold T
  forget_maximum t = record { k = t.k; inner = t.inner }

-- `translatefn` on each element, in order, up to the first error.
unfoldable pub translate_each {ℓ κ μ} :
    {T : Type ℓ} {U : Type κ} {E : Type μ} → (T → Result E U) → List T → Result E (List U)
translate_each f [] = ok []
translate_each f (x ∷ xs) = do y ← f x; ys ← translate_each f xs; ok (y ∷ ys)

module _ {ℓ κ} {T : Type ℓ} {U : Type κ} where
  unfoldable pub map_threshold : (T → U) → Threshold T → Threshold U
  map_threshold f t = record { k = t.k; inner = map f t.inner }

  unfoldable pub translate {μ} :
      {E : Type μ} → (T → Result E U) → Threshold T → Result E (Threshold U)
  unfolding translate_each
  translate f t = do inner ← translate_each f t.inner; ok (record { k = t.k; inner = inner })
