-- ===== src/Primitives/Threshold/Valid.antt =====
-- The range of the thresholds of src/primitives/threshold.rs.
use rust_miniscript.Prelude.{
  ℕ, ◌≤◌, ◌≡◌, ◌↔◌, refl, sym, List, [], ◌∷◌, length, Result, ok, arith, ◌⊎◌, >>=-eq-ok,
}
use rust_miniscript.Primitives.Threshold.{Threshold, new, translate, translate_each}

pub record IsValid {T : Type 0} (max : ℕ) (t : Threshold T) : Type 0 where
  pub positive : 1 ≤ t.k
  pub within : t.k ≤ length t.inner
  pub bounded : (max ≡ 0) ⊎ (length t.inner ≤ max)

module _ {T : Type 0} where
  valid : (max : ℕ) (t : Threshold T) → new max t.k t.inner ≡ ok t → IsValid max t
  unfolding new
  valid max t e = ground arith

  complete : (max : ℕ) (t : Threshold T) → IsValid max t → new max t.k t.inner ≡ ok t
  unfolding new
  complete max t v = ground arith

  -- `new` gives the threshold of its arguments exactly where the number needed is from 1 to the
  -- number of elements, which is at most the maximum, if there is one.
  pub new-IsValid : (max : ℕ) (t : Threshold T) → (new max t.k t.inner ≡ ok t) ↔ IsValid max t
  new-IsValid max t = (valid max t, complete max t)

module _ {T U E : Type 0} where
  -- Each of the second elements is what the function gives for the first element at its place, and
  -- there are as many.
  abbrev pub Each : (T → Result E U) → List T → List U → Type 0
  Each f [] [] = Unit
  Each f (x ∷ xs) (y ∷ ys) = (f x ≡ ok y) × Each f xs ys
  Each f _ _ = ⊥

  translate_each-Each :
      (f : T → Result E U) (xs : List T) (ys : List U) → translate_each f xs ≡ ok ys → Each f xs ys
  unfolding translate_each
  translate_each-Each f [] [] h = tt
  translate_each-Each f [] (y ∷ ys) h = cc
  translate_each-Each f (x ∷ xs) ys h =
      let (y, p, q) = >>=-eq-ok (f x) _ h in
      let (zs, r, s) = >>=-eq-ok (translate_each f xs) _ q in
      let e : ys ≡ y ∷ zs = cc in rw e (p, translate_each-Each f xs zs r)

  Each-translate_each :
      (f : T → Result E U) (xs : List T) (ys : List U) → Each f xs ys → translate_each f xs ≡ ok ys
  unfolding translate_each
  Each-translate_each f [] [] h = refl
  Each-translate_each f [] (y ∷ ys) h = absurd h
  Each-translate_each f (x ∷ xs) [] h = absurd h
  Each-translate_each f (x ∷ xs) (y ∷ ys) h = rw (h.0, Each-translate_each f xs ys h.1) refl

  length-Each :
      (f : T → Result E U) (xs : List T) (ys : List U) → Each f xs ys → length ys ≡ length xs
  length-Each f [] [] h = refl
  length-Each f [] (y ∷ ys) h = absurd h
  length-Each f (x ∷ xs) [] h = absurd h
  length-Each f (x ∷ xs) (y ∷ ys) h = omega (arith, length-Each f xs ys h.1)

  translated :
      (f : T → Result E U) (t : Threshold T) (u : Threshold U)
      → translate f t ≡ ok u
      → (u.k ≡ t.k) × Each f t.inner u.inner
  unfolding translate
  translated f t u h =
      let (ys, p, q) = >>=-eq-ok (translate_each f t.inner) _ h in
      let e : u ≡ record { k = t.k; inner = ys } = cc in
      rw e (refl, translate_each-Each f t.inner ys p)

  -- For a valid threshold, `translate` gives another one exactly where that one is valid, needs the same
  -- number, has as many elements, and each of them is what the function gives for the element of the
  -- original at the same place.
  pub translate-IsValid :
      (f : T → Result E U) (max : ℕ) (t : Threshold T) (u : Threshold U)
      → IsValid max t
      → (translate f t ≡ ok u) ↔ (IsValid max u × (u.k ≡ t.k) × Each f t.inner u.inner)
  unfolding translate
  translate-IsValid f max t u v = (
    (λ h.
        let (k, each) = translated f t u h in
        let n = length-Each f t.inner u.inner each in
        (
          record {
            positive = rw k v.positive;
            within = rw (k, n) v.within;
            bounded = rw n v.bounded;
          },
          k,
          each,
        )),
    (λ (w, k, each). rw (Each-translate_each f t.inner u.inner each, sym k) refl),
  )
