-- ===== src/Policy/Concrete/Keys.antt =====
-- The keys of the policies that `is_valid` of src/policy/concrete.rs accepts.
use rust_miniscript.Prelude.{
  Bool, true, false, ◌||◌, List, [], ◌∷◌, ◌++◌, ok, ◌≡◌, refl, sym, ◌∙◌, ◌↔◌, ◌⊎◌, inl, inr, arith,
  Bool-cases,
}
use rust_miniscript.Primitives.Locktime.{Bitcoin}
use rust_miniscript.Miniscript.Ast.{MiniscriptKey}
use rust_miniscript.Policy.Concrete.{
  Concrete, Concretes, nil, cons, keys, all_keys, occurs, timelock_info, is_valid,
}
use rust_miniscript.Policy.Concrete.Inscriptions.{
  or_false, HasValidInscriptions, valid_inscriptions, no_invalid,
}
use rust_miniscript.Policy.Concrete.Valid.{Distinct, is_valid-Distinct}

or_true : (a : Bool) → (a || true) ≡ true
or_true a = ground arith

only : (a : Bool) → (a || false) ≡ true → a ≡ true
only true h = refl
only false h = cc

clash : (b : Bool) → b ≡ true → b ≡ false → ⊥
clash true h g = cc
clash false h g = cc

module _ {B : Bitcoin} {K : MiniscriptKey} where
  abbrev mutual
    -- The key stands somewhere in the policy.
    HasKey : K.Pk → Concrete B K → Type 0
    HasKey pk (Concrete.key q) = pk ≡ q
    HasKey pk (Concrete.inscribe i sub) = HasKey pk sub
    HasKey pk (Concrete.and subs) = AnyHasKey pk subs
    HasKey pk (Concrete.or weights subs) = AnyHasKey pk subs
    HasKey pk (Concrete.thresh k subs) = AnyHasKey pk subs
    HasKey pk _ = ⊥

    AnyHasKey : K.Pk → Concretes B K → Type 0
    AnyHasKey pk nil = ⊥
    AnyHasKey pk (cons p ps) = HasKey pk p ⊎ AnyHasKey pk ps

  abbrev mutual
    -- No key stands at two places of the policy: no two children have one in common, and none has one
    -- twice.
    pub HasNoRepeats : Concrete B K → Type 0
    HasNoRepeats (Concrete.inscribe i sub) = HasNoRepeats sub
    HasNoRepeats (Concrete.and subs) = HaveNoRepeats subs
    HasNoRepeats (Concrete.or weights subs) = HaveNoRepeats subs
    HasNoRepeats (Concrete.thresh k subs) = HaveNoRepeats subs
    HasNoRepeats _ = Unit

    HaveNoRepeats : Concretes B K → Type 0
    HaveNoRepeats nil = Unit
    HaveNoRepeats (cons p ps) =
        HasNoRepeats p × HaveNoRepeats ps × ((pk : K.Pk) → HasKey pk p → ¬ AnyHasKey pk ps)

module _ {A : Type 0} (same : A → A → Bool)
    (same_iff : (a b : A) → (same a b ≡ true) ↔ (a ≡ b)) where
  occurs-append :
      (a : A) (xs ys : List A) → occurs same a (xs ++ ys) ≡ (occurs same a xs || occurs same a ys)
  unfolding occurs
  occurs-append a [] ys = refl
  occurs-append a (x ∷ xs) ys = rw (occurs-append a xs ys) (ground arith)

  -- The lists have no element in common.
  abbrev Disjoint : List A → List A → Type 0
  Disjoint xs ys = (a : A) → occurs same a xs ≡ true → occurs same a ys ≡ false

  Distinct-append :
      (xs ys : List A)
      → Distinct same (xs ++ ys)
      → Distinct same xs × Distinct same ys × Disjoint xs ys
  unfolding occurs
  Distinct-append [] ys h = (tt, h, (λ a e. cc))
  Distinct-append (x ∷ xs) ys h =
      let (a, b) =
        or_false (occurs same x xs) (occurs same x ys) (sym (occurs-append x xs ys) ∙ h.0) in
      let (c, d, e) = Distinct-append xs ys h.1 in
      (
        (a, c),
        d,
        (λ z g. elim (Bool-cases (same z x)) [
          | inl is ↦ rw ((same_iff z x).0 is) b
          | inr other ↦ e z (rw other at g)
        ]),
      )

  append-Distinct :
      (xs ys : List A)
      → Distinct same xs
      → Distinct same ys
      → Disjoint xs ys
      → Distinct same (xs ++ ys)
  unfolding occurs
  append-Distinct [] ys h g d = g
  append-Distinct (x ∷ xs) ys h g d = (
    occurs-append x xs ys ∙ rw (h.0, d x (rw ((same_iff x x).1 refl) refl)) refl,
    append-Distinct xs ys h.1 g (λ a e. d a (rw e (ground arith))),
  )

module _ {B : Bitcoin} {K : MiniscriptKey} (same_key : K.Pk → K.Pk → Bool)
    (same_iff : (a b : K.Pk) → (same_key a b ≡ true) ↔ (a ≡ b)) where
  mutual
    unfolding keys occurs

    HasKey-occurs :
        (pk : K.Pk) (p : Concrete B K) → HasKey pk p → occurs same_key pk (keys p) ≡ true
    HasKey-occurs pk (Concrete.key q) h = rw ((same_iff pk q).1 h) refl
    HasKey-occurs pk (Concrete.inscribe i sub) h = HasKey-occurs pk sub h
    HasKey-occurs pk (Concrete.and subs) h = AnyHasKey-occurs pk subs h
    HasKey-occurs pk (Concrete.or weights subs) h = AnyHasKey-occurs pk subs h
    HasKey-occurs pk (Concrete.thresh k subs) h = AnyHasKey-occurs pk subs h
    HasKey-occurs pk _ h = absurd h

    AnyHasKey-occurs :
        (pk : K.Pk) (ps : Concretes B K) → AnyHasKey pk ps → occurs same_key pk (all_keys ps) ≡ true
    AnyHasKey-occurs pk nil h = absurd h
    AnyHasKey-occurs pk (cons p ps) (inl h) =
        occurs-append same_key same_iff pk (keys p) (all_keys ps) ∙ rw (HasKey-occurs pk p h) refl
    AnyHasKey-occurs pk (cons p ps) (inr h) =
        occurs-append same_key same_iff pk (keys p) (all_keys ps)
        ∙ rw (AnyHasKey-occurs pk ps h) (or_true (occurs same_key pk (keys p)))

  mutual
    unfolding keys occurs

    occurs-HasKey :
        (pk : K.Pk) (p : Concrete B K) → occurs same_key pk (keys p) ≡ true → HasKey pk p
    occurs-HasKey pk (Concrete.key q) h = (same_iff pk q).0 (only (same_key pk q) h)
    occurs-HasKey pk (Concrete.inscribe i sub) h = occurs-HasKey pk sub h
    occurs-HasKey pk (Concrete.and subs) h = occurs-AnyHasKey pk subs h
    occurs-HasKey pk (Concrete.or weights subs) h = occurs-AnyHasKey pk subs h
    occurs-HasKey pk (Concrete.thresh k subs) h = occurs-AnyHasKey pk subs h
    occurs-HasKey pk _ h = cc

    occurs-AnyHasKey :
        (pk : K.Pk) (ps : Concretes B K) → occurs same_key pk (all_keys ps) ≡ true → AnyHasKey pk ps
    occurs-AnyHasKey pk nil h = cc
    occurs-AnyHasKey pk (cons p ps) h = elim (Bool-cases (occurs same_key pk (keys p))) [
      | inl first ↦ inl (occurs-HasKey pk p first)
      | inr later ↦ inr (
          occurs-AnyHasKey pk ps
            (rw later at (sym (occurs-append same_key same_iff pk (keys p) (all_keys ps)) ∙ h)))
    ]

  mutual
    unfolding keys occurs

    Distinct-HasNoRepeats : (p : Concrete B K) → Distinct same_key (keys p) → HasNoRepeats p
    Distinct-HasNoRepeats (Concrete.inscribe i sub) h = Distinct-HasNoRepeats sub h
    Distinct-HasNoRepeats (Concrete.and subs) h = Distinct-HaveNoRepeats subs h
    Distinct-HasNoRepeats (Concrete.or weights subs) h = Distinct-HaveNoRepeats subs h
    Distinct-HasNoRepeats (Concrete.thresh k subs) h = Distinct-HaveNoRepeats subs h
    Distinct-HasNoRepeats _ h = tt

    Distinct-HaveNoRepeats :
        (ps : Concretes B K) → Distinct same_key (all_keys ps) → HaveNoRepeats ps
    Distinct-HaveNoRepeats nil h = tt
    Distinct-HaveNoRepeats (cons p ps) h =
        let (a, b, c) = Distinct-append same_key same_iff (keys p) (all_keys ps) h in
        (
          Distinct-HasNoRepeats p a,
          Distinct-HaveNoRepeats ps b,
          (λ pk first later.
              let e = HasKey-occurs pk p first in
              let g = AnyHasKey-occurs pk ps later in
              let f = c pk e in clash (occurs same_key pk (all_keys ps)) g f),
        )

  mutual
    unfolding keys occurs

    HasNoRepeats-Distinct : (p : Concrete B K) → HasNoRepeats p → Distinct same_key (keys p)
    HasNoRepeats-Distinct (Concrete.key q) h = (refl, tt)
    HasNoRepeats-Distinct (Concrete.inscribe i sub) h = HasNoRepeats-Distinct sub h
    HasNoRepeats-Distinct (Concrete.and subs) h = HaveNoRepeats-Distinct subs h
    HasNoRepeats-Distinct (Concrete.or weights subs) h = HaveNoRepeats-Distinct subs h
    HasNoRepeats-Distinct (Concrete.thresh k subs) h = HaveNoRepeats-Distinct subs h
    HasNoRepeats-Distinct _ h = tt

    HaveNoRepeats-Distinct :
        (ps : Concretes B K) → HaveNoRepeats ps → Distinct same_key (all_keys ps)
    HaveNoRepeats-Distinct nil h = tt
    HaveNoRepeats-Distinct (cons p ps) h =
        append-Distinct same_key same_iff (keys p) (all_keys ps) (HasNoRepeats-Distinct p h.0)
          (HaveNoRepeats-Distinct ps h.1)
          (λ pk first. elim (Bool-cases (occurs same_key pk (all_keys ps))) [
            | inl again ↦ absurd (h.2 pk (occurs-HasKey pk p first) (occurs-AnyHasKey pk ps again))
            | inr new ↦ new
          ])

  -- Where `same_key` is the equality of keys, `is_valid` accepts exactly the policies whose
  -- inscriptions are all valid, whose `timelock_info` has no combination, and in which no key stands at
  -- two places: no two children of a policy have one in common, at any depth.
  pub is_valid-HasNoRepeats :
      (p : Concrete B K)
      → (is_valid same_key p ≡ ok tt) ↔ (
          HasValidInscriptions p
          × ((timelock_info p).contains_combination ≡ false)
          × HasNoRepeats p)
  is_valid-HasNoRepeats p = (
    (λ h.
        let (whole, plain, distinct) = (is_valid-Distinct same_key p).0 h in
        (valid_inscriptions p whole, plain, Distinct-HasNoRepeats p distinct)),
    (λ h. (is_valid-Distinct same_key p).1 (no_invalid p h.0, h.1, HasNoRepeats-Distinct p h.2)),
  )
