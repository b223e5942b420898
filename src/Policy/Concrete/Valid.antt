-- ===== src/Policy/Concrete/Valid.antt =====
-- The policies that `is_valid` and `check_binary_ops` of src/policy/concrete.rs accept.
use rust_miniscript.Prelude.{
  ℕ, ◌≤◌, Bool, false, ltb, ◌==◌, ==_iff, List, [], ◌∷◌, length, ok, ◌>>◌, >>=-eq-ok, reject,
  reject-eq-ok, ltb_irreflexive, ◌≡◌, refl, ◌↔◌, arith, inl, inr, Bool-cases, reject, reject-eq-ok,
  ltb_irreflexive,
}
use rust_miniscript.Primitives.Locktime.{Bitcoin}
use rust_miniscript.Miniscript.Ast.{MiniscriptKey}
use rust_miniscript.Policy.Semantic.{Policy, holds}
use rust_miniscript.Policy.Concrete.{
  Concrete, Concretes, nil, cons, size, PolicyError, keys, occurs, unique_len, check_duplicate_keys,
  timelock_info, check_timelocks, invalid_inscribed, is_valid, check_binary_ops, all_binary_ops,
  lift,
}
use rust_miniscript.Policy.Concrete.Satisfied.{satisfied}
use rust_miniscript.Policy.Concrete.Lifts.{HasArity, AllHaveArity, lift-satisfied}

module _ {A : Type 0} (same : A → A → Bool) where
  -- No two elements are the same.
  abbrev pub Distinct : List A → Type 0
  Distinct [] = Unit
  Distinct (x ∷ xs) = (occurs same x xs ≡ false) × Distinct xs

  unique_len-le : (xs : List A) → unique_len same xs ≤ length xs
  unfolding unique_len
  unique_len-le [] = omega arith
  unique_len-le (x ∷ xs) = elim (Bool-cases (occurs same x xs)) [
    | inl h ↦ rw h (omega (arith, unique_len-le xs))
    | inr h ↦ rw h (omega (arith, unique_len-le xs))
  ]

  Distinct-unique_len : (xs : List A) → Distinct xs → unique_len same xs ≡ length xs
  unfolding unique_len
  Distinct-unique_len [] h = refl
  Distinct-unique_len (x ∷ xs) h = rw h.0 (omega (arith, Distinct-unique_len xs h.1))

  unique_len-Distinct : (xs : List A) → length xs ≤ unique_len same xs → Distinct xs
  unfolding unique_len
  unique_len-Distinct [] h = tt
  unique_len-Distinct (x ∷ xs) h = elim (Bool-cases (occurs same x xs)) [
    | inl again ↦ absurd (omega (arith, rw again at h, unique_len-le xs))
    | inr new ↦ (new, unique_len-Distinct xs (omega (arith, rw new at h)))
  ]

at_least : (a b : ℕ) → ltb a b ≡ false → b ≤ a
at_least a b h = ground (arith, h)

module _ {B : Bitcoin} {K : MiniscriptKey} (same_key : K.Pk → K.Pk → Bool) where
  check_duplicate_keys-Distinct :
      (p : Concrete B K) → (check_duplicate_keys same_key p ≡ ok tt) ↔ Distinct same_key (keys p)
  unfolding check_duplicate_keys
  check_duplicate_keys-Distinct p =
      let fewer = ltb (unique_len same_key (keys p)) (length (keys p)) in
      (
        (λ h. unique_len-Distinct same_key (keys p) (
            at_least (unique_len same_key (keys p)) (length (keys p))
              (reject-eq-ok fewer PolicyError.duplicate_pub_keys h))),
        (λ h. rw (Distinct-unique_len same_key (keys p) h, ltb_irreflexive (length (keys p))) refl),
      )

  -- `is_valid` accepts exactly the policies whose inscriptions are all valid, which have no
  -- combination of lock times, and in which no key occurs twice.
  pub is_valid-Distinct :
      (p : Concrete B K)
      → (is_valid same_key p ≡ ok tt) ↔ (
          (invalid_inscribed p ≡ false)
          × ((timelock_info p).contains_combination ≡ false)
          × Distinct same_key (keys p))
  unfolding is_valid check_timelocks check_duplicate_keys
  is_valid-Distinct p = (
    (λ h.
        let (u, whole, rest) =
          >>=-eq-ok (reject (invalid_inscribed p) PolicyError.invalid_inscription)
            (λ _. check_timelocks p >> check_duplicate_keys same_key p) h in
        let (w, plain, distinct) =
          >>=-eq-ok (check_timelocks p) (λ _. check_duplicate_keys same_key p) rest in
        (
          reject-eq-ok (invalid_inscribed p) PolicyError.invalid_inscription whole,
          reject-eq-ok (timelock_info p).contains_combination
              PolicyError.height_timelock_combination plain,
          (check_duplicate_keys-Distinct p).0 distinct,
        )),
    (λ (valid, plain, distinct). rw (valid, plain) ((check_duplicate_keys-Distinct p).1 distinct)),
  )

  mutual
    unfolding check_binary_ops

    check_binary_ops-HasArity : (p : Concrete B K) → check_binary_ops p ≡ ok tt → HasArity p
    check_binary_ops-HasArity (Concrete.inscribe i sub) h = check_binary_ops-HasArity sub h
    check_binary_ops-HasArity (Concrete.and subs) h = elim (Bool-cases (size subs == 2)) [
      | inl two ↦ ((==_iff (size subs) 2).0 two, all_binary_ops-AllHaveArity subs (rw two at h))
      | inr other ↦ cc
    ]
    check_binary_ops-HasArity (Concrete.or weights subs) h = elim (Bool-cases (size subs == 2)) [
      | inl two ↦ (ground (arith, two), all_binary_ops-AllHaveArity subs (rw two at h))
      | inr other ↦ cc
    ]
    check_binary_ops-HasArity (Concrete.thresh k subs) h = all_binary_ops-AllHaveArity subs h
    check_binary_ops-HasArity _ h = tt

    all_binary_ops-AllHaveArity : (ps : Concretes B K) → all_binary_ops ps ≡ ok tt → AllHaveArity ps
    all_binary_ops-AllHaveArity nil h = tt
    all_binary_ops-AllHaveArity (cons p ps) h =
        let (u, first, rest) = >>=-eq-ok (check_binary_ops p) (λ _. all_binary_ops ps) h in
        (check_binary_ops-HasArity p first, all_binary_ops-AllHaveArity ps rest)

  -- A policy that `is_valid` and `check_binary_ops` accept is lifted without an error or a panic, and
  -- under all keys, preimages and lock times the result holds exactly where the policy is satisfied.
  pub is_valid-lift :
      (p : Concrete B K)
      → is_valid same_key p ≡ ok tt
      → check_binary_ops p ≡ ok tt
      → (q : Policy B K) × (lift p ≡ ok q) × ((v : Policy B K → Bool) → holds v q ≡ satisfied v p)
  unfolding check_timelocks
  is_valid-lift p valid binary =
      let (whole, plain, distinct) = (is_valid-Distinct p).0 valid in
      lift-satisfied p (check_binary_ops-HasArity p binary) (rw plain refl)
