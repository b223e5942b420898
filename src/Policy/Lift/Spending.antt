-- ===== src/Policy/Lift/Spending.antt =====
-- When a miniscript can be spent, and what `lift` of src/policy/mod.rs makes of it.
use rust_miniscript.Prelude.{
  ℕ, ◌+◌, Bool, true, false, ◌&&◌, ◌||◌, leb, from_bool, List, [], ◌∷◌, ok, ◌≡◌, refl, ap, ap₂, ◌∙◌,
}
use rust_miniscript.Primitives.Locktime.{Bitcoin}
use rust_miniscript.Miniscript.Ast.{
  MiniscriptKey, Inscription, Terminal, Miniscript, miniscript, Subs, nil, cons,
}
use rust_miniscript.Miniscript.Context.{Context}
use rust_miniscript.Policy.Semantic.{Policy, normalized, holds, count}
use rust_miniscript.Policy.Semantic.Meaning.{normalized-holds}
use rust_miniscript.Policy.Lift.{
  within_resource_limits, has_mixed_timelocks, contains_raw_pkh, inscribed, and_of, or_of,
  key_policies, lift,
}
use rust_miniscript.Policy.Lift.Recursion.{lifted, lifted_node, lifted_subs}
use rust_miniscript.Policy.Lift.Runs.{lift-lifted}

both_hold : (p q : Bool) → leb 2 (from_bool p + (from_bool q + 0)) ≡ (p && q)
both_hold true true = refl
both_hold true false = refl
both_hold false true = refl
both_hold false false = refl

one_holds : (p q : Bool) → leb 1 (from_bool p + (from_bool q + 0)) ≡ (p || q)
one_holds true true = refl
one_holds true false = refl
one_holds false true = refl
one_holds false false = refl

module _ {B : Bitcoin} {K : MiniscriptKey} (v : Policy B K → Bool) where
  abbrev pub available : List K.Pk → ℕ
  available [] = 0
  available (pk ∷ pks) = from_bool (v (Policy.key pk)) + available pks

  unfoldable mutual
    -- Whether some branch of the script can be taken, where `v` says which keys, preimages and lock
    -- times are available.
    pub spendable : Miniscript B K → Bool
    spendable (miniscript n t e) = node_spendable n

    pub node_spendable : Terminal B K → Bool
    node_spendable Terminal.true = true
    node_spendable Terminal.false = false
    node_spendable (Terminal.pk_k pk) = v (Policy.key pk)
    node_spendable (Terminal.pk_h pk) = v (Policy.key pk)
    node_spendable (Terminal.raw_pk_h h) = false
    node_spendable (Terminal.after t) = v (Policy.after t)
    node_spendable (Terminal.older t) = v (Policy.older t)
    node_spendable (Terminal.sha256 h) = v (Policy.sha256 h)
    node_spendable (Terminal.hash256 h) = v (Policy.hash256 h)
    node_spendable (Terminal.ripemd160 h) = v (Policy.ripemd160 h)
    node_spendable (Terminal.hash160 h) = v (Policy.hash160 h)
    node_spendable (Terminal.tx_template h) = v (Policy.tx_template h)
    node_spendable (Terminal.inscribe_pre i s) = spendable s
    node_spendable (Terminal.inscribe_post i s) = spendable s
    node_spendable (Terminal.alt s) = spendable s
    node_spendable (Terminal.swap s) = spendable s
    node_spendable (Terminal.check s) = spendable s
    node_spendable (Terminal.dup_if s) = spendable s
    node_spendable (Terminal.verify s) = spendable s
    node_spendable (Terminal.non_zero s) = spendable s
    node_spendable (Terminal.zero_not_equal s) = spendable s
    node_spendable (Terminal.and_v l r) = spendable l && spendable r
    node_spendable (Terminal.and_b l r) = spendable l && spendable r
    node_spendable (Terminal.and_or x y z) = (spendable x && spendable y) || spendable z
    node_spendable (Terminal.or_b l r) = spendable l || spendable r
    node_spendable (Terminal.or_d l r) = spendable l || spendable r
    node_spendable (Terminal.or_c l r) = spendable l || spendable r
    node_spendable (Terminal.or_i l r) = spendable l || spendable r
    node_spendable (Terminal.thresh k ss) = leb k (spendable_count ss)
    node_spendable (Terminal.multi t) = leb t.k (available t.inner)
    node_spendable (Terminal.multi_a t) = leb t.k (available t.inner)

    pub spendable_count : Subs B K → ℕ
    spendable_count nil = 0
    spendable_count (cons s ss) = from_bool (spendable s) + spendable_count ss

  and_of-holds : (p q : Policy B K) → holds v (and_of p q) ≡ (holds v p && holds v q)
  unfolding holds
  and_of-holds p q = both_hold (holds v p) (holds v q)

  or_of-holds : (p q : Policy B K) → holds v (or_of p q) ≡ (holds v p || holds v q)
  unfolding holds
  or_of-holds p q = one_holds (holds v p) (holds v q)

  key_policies-count : (pks : List K.Pk) → count v (key_policies pks) ≡ available pks
  unfolding holds
  key_policies-count [] = refl
  key_policies-count (pk ∷ pks) =
      ap (λ n. from_bool (v (Policy.key pk)) + n) (key_policies-count pks)

  inscribed-holds : (i : List Inscription) (p : Policy B K) → holds v (inscribed i p) ≡ holds v p
  unfolding holds
  inscribed-holds [] p = refl
  inscribed-holds (j ∷ i) p = inscribed-holds i p

  mutual
    unfolding lifted spendable holds

    lifted-spendable : (ms : Miniscript B K) → holds v (lifted ms) ≡ spendable ms
    lifted-spendable (miniscript n t e) = lifted_node-spendable n

    lifted_node-spendable : (n : Terminal B K) → holds v (lifted_node n) ≡ node_spendable n
    lifted_node-spendable (Terminal.inscribe_pre i s) =
        inscribed-holds i (lifted s) ∙ lifted-spendable s
    lifted_node-spendable (Terminal.inscribe_post i s) =
        inscribed-holds i (lifted s) ∙ lifted-spendable s
    lifted_node-spendable (Terminal.alt s) = lifted-spendable s
    lifted_node-spendable (Terminal.swap s) = lifted-spendable s
    lifted_node-spendable (Terminal.check s) = lifted-spendable s
    lifted_node-spendable (Terminal.dup_if s) = lifted-spendable s
    lifted_node-spendable (Terminal.verify s) = lifted-spendable s
    lifted_node-spendable (Terminal.non_zero s) = lifted-spendable s
    lifted_node-spendable (Terminal.zero_not_equal s) = lifted-spendable s
    lifted_node-spendable (Terminal.and_v l r) =
        and_of-holds (lifted l) (lifted r)
        ∙ ap₂ (λ x y. x && y) (lifted-spendable l) (lifted-spendable r)
    lifted_node-spendable (Terminal.and_b l r) =
        and_of-holds (lifted l) (lifted r)
        ∙ ap₂ (λ x y. x && y) (lifted-spendable l) (lifted-spendable r)
    lifted_node-spendable (Terminal.or_b l r) =
        or_of-holds (lifted l) (lifted r)
        ∙ ap₂ (λ x y. x || y) (lifted-spendable l) (lifted-spendable r)
    lifted_node-spendable (Terminal.or_d l r) =
        or_of-holds (lifted l) (lifted r)
        ∙ ap₂ (λ x y. x || y) (lifted-spendable l) (lifted-spendable r)
    lifted_node-spendable (Terminal.or_c l r) =
        or_of-holds (lifted l) (lifted r)
        ∙ ap₂ (λ x y. x || y) (lifted-spendable l) (lifted-spendable r)
    lifted_node-spendable (Terminal.or_i l r) =
        or_of-holds (lifted l) (lifted r)
        ∙ ap₂ (λ x y. x || y) (lifted-spendable l) (lifted-spendable r)
    lifted_node-spendable (Terminal.and_or x y z) =
        or_of-holds (and_of (lifted x) (lifted y)) (lifted z)
        ∙ ap₂ (λ a b. a || b)
            (and_of-holds (lifted x) (lifted y)
              ∙ ap₂ (λ a b. a && b) (lifted-spendable x) (lifted-spendable y))
            (lifted-spendable z)
    lifted_node-spendable (Terminal.thresh k ss) = ap (leb k) (lifted_subs-spendable ss)
    lifted_node-spendable (Terminal.multi t) = ap (leb t.k) (key_policies-count t.inner)
    lifted_node-spendable (Terminal.multi_a t) = ap (leb t.k) (key_policies-count t.inner)
    lifted_node-spendable _ = refl

    lifted_subs-spendable : (ss : Subs B K) → count v (lifted_subs ss) ≡ spendable_count ss
    lifted_subs-spendable nil = refl
    lifted_subs-spendable (cons s ss) =
        ap₂ (λ a n. from_bool a + n) (lifted-spendable s) (lifted_subs-spendable ss)

module _ {B : Bitcoin} {K : MiniscriptKey} where
  -- A script within the limits of its context, without mixed lock times and without raw public key
  -- hashes, is lifted to a policy, and under all keys, preimages and lock times the policy holds
  -- exactly where some branch of the script can be taken.
  pub lift-holds :
      (c : Context) (ms : Miniscript B K)
      → within_resource_limits c ms ≡ true
      → has_mixed_timelocks ms ≡ false
      → contains_raw_pkh ms ≡ false
      → (p : Policy B K) × (lift c ms ≡ ok p)
        × ((v : Policy B K → Bool) → holds v p ≡ spendable v ms)
  lift-holds c ms within plain known = (
    normalized (lifted ms),
    lift-lifted c ms ∙ rw (within, plain, known) refl,
    (λ v. normalized-holds v (lifted ms) ∙ lifted-spendable v ms),
  )
