-- ===== src/Interpreter/Sound/Keys.antt =====
-- The keys that `multi` and `multi_a` of src/interpreter/mod.rs find signed, against those that a
-- policy's valuation makes available.
use rust_miniscript.Prelude.{
  ℕ, zero, suc, ◌+◌, ◌-◌, Bool, true, false, from_bool, Bool-cases, Option-cases, Option, none,
  some, List, [], ◌∷◌, length, nth, take, drop, take_all, ltb, leb, ◌==◌, ok, err, if◌then◌else◌,
  inl, inr, ◌≡◌, refl, ap, subst, ◌∙◌, arith,
}
use rust_miniscript.Primitives.Threshold.{Threshold}
use rust_miniscript.Primitives.Locktime.{Bitcoin}
use rust_miniscript.Policy.Semantic.{Policy}
use rust_miniscript.Policy.Lift.Spending.{available}
use rust_miniscript.Interpreter.Keys.{
  Crypto, BitcoinKey, KeySigPair, SatisfiedConstraint, Error, bitcoin_key,
}
use rust_miniscript.Interpreter.Stack.{Element, Stack, Evaluation, evaluate_pk, evaluate_multi}
use rust_miniscript.Interpreter.Arms.Multi.{nonsat}
use rust_miniscript.Interpreter.Evaluator.{
  Run, Spend, multi_a_key, multi_a_keys, multi_key, multi_at, multi_keys, multi_run, multi_top,
  extra_zero,
}
use rust_miniscript.Interpreter.Refine.Indices.{nth_below}
use rust_miniscript.Interpreter.Sound.Leaves.{
  Shown, Shown-map, Granted, Leaves, key_of, choose-Leaves, evaluate_sig-constraint,
  evaluate_multi-constraint,
}

pub reached : (sat k n : ℕ) → (sat == k) ≡ true → leb k (sat + n) ≡ true
reached sat k n h = ground (arith, h)

-- One more key.
pub counted :
    (b : Bool) (k sat n : ℕ)
    → b ≡ true
    → leb k (sat + 1 + n) ≡ true
    → leb k (sat + (from_bool b + n)) ≡ true
counted b k sat n e h = rw e (ground (arith, h))

pub skipped :
    (b : Bool) (k sat n : ℕ) → leb k (sat + n) ≡ true → leb k (sat + (from_bool b + n)) ≡ true
skipped true k sat n h = ground (arith, h)
skipped false k sat n h = ground (arith, h)

some_injective : {A : Type 0} (x y : A) → some x ≡ some y → x ≡ y
some_injective x y h = cc

module _ {B : Bitcoin} (C : Crypto B) (env : Spend C) (v : Policy B (bitcoin_key C) → Bool) where
  abbrev Granting : SatisfiedConstraint C → Type 0
  Granting = Granted C env.sig_type v

  abbrev Leaving : Run C → Stack → Type 0
  Leaving = Leaves C env.sig_type v

  key_granted :
      (pk : BitcoinKey C) (c : SatisfiedConstraint C) (ks : KeySigPair C)
      → c ≡ SatisfiedConstraint.public_key ks
      → key_of C ks ≡ pk
      → Granting c
      → v (Policy.key pk) ≡ true
  key_granted pk c ks same key g = subst (λ k. v (Policy.key k) ≡ true) key (subst Granting same g)

  top-Shown :
      (k sat n : ℕ) (rest : Stack)
      → Shown
          (leb k (sat + n))
          ((if sat == k then Element.satisfied else Element.dissatisfied) ∷ rest)
  top-Shown k sat n rest = elim (Bool-cases (sat == k)) [
    | inl e ↦ rw e (reached sat k n e)
    | inr e ↦ rw e tt
  ]

  multi_a_key-Shown :
      (k n sat : ℕ) (pk : BitcoinKey C) (go : ℕ → Stack → Run C) (old st : Stack)
      → ((m : ℕ) (mid : Stack) → Leaving (go m mid) st → Shown (leb k (m + n)) st)
      → (r : Evaluation C × Stack) → evaluate_pk C env.verify_sig pk old ≡ r
      → Leaving (multi_a_key C env sat go r) st
      → Shown (leb k (sat + (from_bool (v (Policy.key pk)) + n))) st
  unfolding evaluate_pk
  multi_a_key-Shown k n sat pk go old st ih (some (ok c), []) e h = absurd h
  multi_a_key-Shown k n sat pk go old st ih (some (ok c), x ∷ mid) e (g, h) =
      let (ks, same, key, _) =
        evaluate_sig-constraint C env.verify_sig pk SatisfiedConstraint.public_key old (x ∷ mid) c
          e in
      Shown-map (leb k (sat + 1 + n)) (leb k (sat + (from_bool (v (Policy.key pk)) + n)))
        (counted (v (Policy.key pk)) k sat n (key_granted pk c ks same key g)) st
        (ih (sat + 1) mid h)
  multi_a_key-Shown k n sat pk go old st ih (none, []) e h = absurd h
  multi_a_key-Shown k n sat pk go old st ih (none, x ∷ mid) e h =
      Shown-map (leb k (sat + n)) (leb k (sat + (from_bool (v (Policy.key pk)) + n)))
        (skipped (v (Policy.key pk)) k sat n) st (ih sat mid h)
  multi_a_key-Shown k n sat pk go old st ih (some (err x), mid) e h = absurd h

  pub multi_a_keys-Shown :
      (k : ℕ) (pks : List (BitcoinKey C)) (sat : ℕ) (old st : Stack)
      → Leaving (multi_a_keys C env k pks sat old) st
      → Shown (leb k (sat + available v pks)) st
  unfolding multi_a_keys
  multi_a_keys-Shown k [] sat old st h = subst (Shown (leb k (sat + 0))) h (top-Shown k sat 0 old)
  multi_a_keys-Shown k (pk ∷ pks) sat old st h =
      multi_a_key-Shown k (available v pks) sat pk (λ n mid. multi_a_keys C env k pks n mid) old st
        (λ m mid p. multi_a_keys-Shown k pks m mid st p) (evaluate_pk C env.verify_sig pk old) refl
        h

  -- The first keys of a list, and the one after them.
  take-available :
      (j : ℕ) (keys : List (BitcoinKey C)) (pk : BitcoinKey C)
      → nth j keys ≡ some pk
      → available v (take (suc j) keys) ≡ from_bool (v (Policy.key pk)) + available v (take j keys)
  take-available j [] pk h = cc
  take-available zero (x ∷ []) pk h =
      ap (λ k. from_bool (v (Policy.key k)) + 0) (some_injective x pk h)
  take-available zero (x ∷ y ∷ keys) pk h =
      ap (λ k. from_bool (v (Policy.key k)) + 0) (some_injective x pk h)
  take-available (suc j) (x ∷ keys) pk h = let ih = take-available j keys pk h in omega (arith, ih)

  extra_zero-Shown :
      (sp : Bool) (old st : Stack) → sp ≡ true → Leaving (extra_zero C env old) st → Shown sp st
  extra_zero-Shown sp [] st e h = absurd h
  extra_zero-Shown sp (Element.dissatisfied ∷ old) st e h = subst (Shown sp) h e
  extra_zero-Shown sp (Element.satisfied ∷ old) st e h = absurd h
  extra_zero-Shown sp (Element.push b ∷ old) st e h = absurd h

  -- A key that is tried, before `go` of the count of the signed keys.
  multi_key-Shown :
      (k n sat : ℕ) (pk : BitcoinKey C) (go : ℕ → Stack → Run C) (old st : Stack)
      → ((m : ℕ) (mid : Stack) → Leaving (go m mid) st → Shown (leb k (m + n)) st)
      → (r : Evaluation C × Stack) → evaluate_multi C env.verify_sig pk old ≡ r
      → Leaving (multi_key C env sat go r) st
      → Shown (leb k (sat + (from_bool (v (Policy.key pk)) + n))) st
  multi_key-Shown k n sat pk go old st ih (some (ok c), mid) e (g, h) =
      let (ks, same, key, _) = evaluate_multi-constraint C env.verify_sig pk old mid c e in
      Shown-map (leb k (sat + 1 + n)) (leb k (sat + (from_bool (v (Policy.key pk)) + n)))
        (counted (v (Policy.key pk)) k sat n (key_granted pk c ks same key g)) st
        (ih (sat + 1) mid h)
  multi_key-Shown k n sat pk go old st ih (none, mid) e h =
      Shown-map (leb k (sat + n)) (leb k (sat + (from_bool (v (Policy.key pk)) + n)))
        (skipped (v (Policy.key pk)) k sat n) st (ih sat mid h)
  multi_key-Shown k n sat pk go old st ih (some (err x), mid) e h = absurd h

  multi_at-Shown :
      (k j sat : ℕ) (keys : List (BitcoinKey C)) (go : ℕ → Stack → Run C) (old st : Stack)
      → ((m : ℕ) (mid : Stack)
          → Leaving (go m mid) st
          → Shown (leb k (m + available v (take j keys))) st)
      → (o : Option (BitcoinKey C)) → nth j keys ≡ o
      → Leaving (multi_at C env sat go old o) st
      → Shown (leb k (sat + available v (take (suc j) keys))) st
  multi_at-Shown k j sat keys go old st ih none e h = absurd h
  multi_at-Shown k j sat keys go old st ih (some pk) e h = rw (take-available j keys pk e) (
      multi_key-Shown k (available v (take j keys)) sat pk go old st ih
        (evaluate_multi C env.verify_sig pk old) refl h)

  multi_keys-Shown :
      (k : ℕ) (keys : List (BitcoinKey C)) (j sat : ℕ) (old st : Stack)
      → Leaving (multi_keys C env k keys j sat old) st
      → Shown (leb k (sat + available v (take j keys))) st
  unfolding multi_keys
  multi_keys-Shown k keys zero sat old st h =
      choose-Leaves C env.sig_type v (sat == k) (extra_zero C env old) _ st
        (λ e passed.
          extra_zero-Shown (leb k (sat + available v (take 0 keys))) old st
            (reached sat k (available v (take 0 keys)) e) passed)
        (λ _ failed. absurd failed) h
  multi_keys-Shown k keys (suc j) sat old st h =
      choose-Leaves C env.sig_type v (sat == k) (extra_zero C env old)
        (multi_at C env sat (λ n mid. multi_keys C env k keys j n mid) old (nth j keys)) st
        (λ e passed.
          extra_zero-Shown (leb k (sat + available v (take (suc j) keys))) old st
            (reached sat k (available v (take (suc j) keys)) e) passed)
        (λ _ more.
          multi_at-Shown k j sat keys (λ n mid. multi_keys C env k keys j n mid) old st
            (λ m mid p. multi_keys-Shown k keys j m mid st p) (nth j keys) refl more)
        h

  first_key-Shown :
      (t : Threshold (BitcoinKey C)) (old st : Stack)
      → Leaving
          (multi_at C env 0
            (λ n mid. multi_keys C env t.k t.inner (length t.inner - 1) n mid)
            old
            (nth (length t.inner - 1) t.inner))
          st
      → Shown (leb t.k (available v t.inner)) st
  first_key-Shown t old st h =
      let j = length t.inner - 1 in
      let go : ℕ → Stack → Run C = λ n mid. multi_keys C env t.k t.inner j n mid in
      elim (Option-cases (nth j t.inner)) [
        | inl e ↦ absurd (subst (λ o. Leaving (multi_at C env 0 go old o) st) e h)
        | inr (pk, e) ↦
            let below = nth_below j t.inner pk e in
            let none_before : 0 + available v (take (suc j) t.inner)
                ≡ available v (take (suc j) t.inner) =
              omega arith in
            let all : 0 + available v (take (suc j) t.inner) ≡ available v t.inner =
              none_before
              ∙ ap (λ n. available v (take n t.inner)) (omega (arith, below))
              ∙ ap (available v) (take_all t.inner) in
            subst (λ n. Shown (leb t.k n) st) all
              (multi_at-Shown t.k j 0 t.inner go old st
                (λ m mid p. multi_keys-Shown t.k t.inner j m mid st p) (nth j t.inner) refl h)
      ]

  multi_top-Shown :
      (t : Threshold (BitcoinKey C)) (old st : Stack)
      → Leaving (multi_top C env t old) st
      → Shown (leb t.k (available v t.inner)) st
  multi_top-Shown t [] st h = absurd h
  multi_top-Shown t (Element.satisfied ∷ old) st h =
      first_key-Shown t (Element.satisfied ∷ old) st h
  multi_top-Shown t (Element.push b ∷ old) st h = first_key-Shown t (Element.push b ∷ old) st h
  multi_top-Shown t (Element.dissatisfied ∷ old) st h =
      let all : Stack = Element.dissatisfied ∷ old in
      choose-Leaves C env.sig_type v (nonsat C (take (t.k + 1) all) == t.k + 1)
        (Run.done (Element.dissatisfied ∷ drop (t.k + 1) all))
        (Run.fails Error.missing_extra_zero_multi_sig) st
        (λ _ p. subst (Shown (leb t.k (available v t.inner))) p tt) (λ _ failed. absurd failed) h

  pub multi_run-Shown :
      (t : Threshold (BitcoinKey C)) (old st : Stack)
      → Leaving (multi_run C env t old) st
      → Shown (leb t.k (available v t.inner)) st
  multi_run-Shown t old st h =
      choose-Leaves C env.sig_type v (ltb (length old) (t.k + 1)) _ (multi_top C env t old) st
        (λ _ failed. absurd failed) (λ _ p. multi_top-Shown t old st p) h
