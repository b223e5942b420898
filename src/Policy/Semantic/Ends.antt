-- ===== src/Policy/Semantic/Ends.antt =====
-- `entails` of src/policy/semantic.rs ends, and what its yes means.
use rust_miniscript.Prelude.{
  ℕ, zero, suc, ◌+◌, ◌≤◌, ◌<◌, Bool, true, false, ltb, if◌then◌else◌, some, Result, ok, ◌>>=◌, ◌≡◌,
  refl, sym, subst, ◌∙◌, arith, Bool-cases, inl, inr,
}
use rust_miniscript.Primitives.Locktime.{Bitcoin}
use rust_miniscript.Miniscript.Ast.{MiniscriptKey}
use rust_miniscript.Policy.Semantic.{
  Policy, Policies, nil, cons, is_unsatisfiable, normalized, holds,
}
use rust_miniscript.Policy.Semantic.Meaning.{HasSubs, normalized-HasSubs, normalized-holds}
use rust_miniscript.Policy.Semantic.Constraint.{
  first_constraint, satisfy_constraint, is_thresh, replaced, constrained, constrained_all,
  constrained-holds,
}
use rust_miniscript.Policy.Semantic.Normal.{
  is_other, Clean, normalized-Clean, n_terminals-normalized, Plain, AllPlain, cons-AllPlain,
  AllPlain-cons, normalized-Plain,
}
use rust_miniscript.Policy.Semantic.Entails.{
  entails, split, decided, NoAnswer, n_terminals, n_terminals_all, has_inscribe,
  entailment_max_terminals,
}

-- Two answers, the second of which is only asked for where the first is yes.
joined :
    (y z : Bool) (q r : Result NoAnswer Bool)
    → q ≡ ok y
    → r ≡ ok z
    → (yes : Bool) × ((q >>= λ first. if first then r else ok false) ≡ ok yes)
      × (yes ≡ true → (y ≡ true) × (z ≡ true))
joined true z q r e f = (z, rw (e, f) refl, (λ h. (refl, h)))
joined false z q r e f = (false, rw e refl, (λ h. cc))

module _ {B : Bitcoin} {K : MiniscriptKey} where
  -- A policy whose thresholds have children has a first constraint, which is no threshold.
  first_constraint-some :
      (p : Policy B K)
      → HasSubs p
      → (w : Policy B K) × (first_constraint p ≡ some w) × (is_thresh w ≡ false)
  unfolding first_constraint
  first_constraint-some (Policy.thresh k nil) h = ground arith
  first_constraint-some (Policy.thresh k (cons p ps)) h = first_constraint-some p h.1.0
  first_constraint-some p h = (p, refl, refl)

  abbrev constant : Bool → Policy B K
  constant x = if x then Policy.trivial else Policy.unsatisfiable

  module _ (eq : Policy B K → Policy B K → Bool) where
    normalized-thresh-le :
        (k : ℕ) (ps : Policies B K)
        → n_terminals (normalized (Policy.thresh k ps)) ≤ n_terminals_all ps
    unfolding n_terminals
    normalized-thresh-le k ps = n_terminals-normalized (Policy.thresh k ps)

    constant-Plain : (x : Bool) → Plain (constant x)
    unfolding has_inscribe
    constant-Plain true = refl
    constant-Plain false = refl

    constant-le : (n : ℕ) (x : Bool) → n_terminals (constant x) ≤ n
    unfolding n_terminals
    constant-le n true = omega arith
    constant-le n false = omega arith

    replaced-le : (p w : Policy B K) (a : Bool) → n_terminals (replaced eq p w a) ≤ n_terminals p
    unfolding n_terminals
    replaced-le p w a = elim (Bool-cases (eq p w)) [
      | inl same ↦ rw same (constant-le (n_terminals p) a)
      | inr other ↦ rw other (omega arith)
    ]

    mutual
      unfolding constrained n_terminals

      constrained-le :
          (p w : Policy B K) (a : Bool) → n_terminals (constrained eq p w a) ≤ n_terminals p
      constrained-le (Policy.thresh k subs) w a =
          omega (
            arith,
            normalized-thresh-le k (constrained_all eq subs w a),
            constrained_all-le subs w a,
          )
      constrained-le p w a =
          omega (arith, n_terminals-normalized (replaced eq p w a), replaced-le p w a)

      constrained_all-le :
          (ps : Policies B K) (w : Policy B K) (a : Bool)
          → n_terminals_all (constrained_all eq ps w a) ≤ n_terminals_all ps
      constrained_all-le nil w a = omega arith
      constrained_all-le (cons p ps) w a =
          omega (arith, constrained-le p w a, constrained_all-le ps w a)

    constant-lt : (n : ℕ) (x : Bool) → n_terminals (normalized (constant x)) < suc n
    unfolding n_terminals normalized
    constant-lt n true = omega arith
    constant-lt n false = omega arith

    constant_stays :
        (p w : Policy B K) (x : Bool) → is_other p ≡ false → is_other (constrained eq p w x) ≡ false
    unfolding constrained normalized
    constant_stays Policy.trivial w true h = ground arith
    constant_stays Policy.trivial w false h = ground arith
    constant_stays Policy.unsatisfiable w true h = ground arith
    constant_stays Policy.unsatisfiable w false h = ground arith
    constant_stays p w x h = cc

    module _ (reflexive : (q : Policy B K) → eq q q ≡ true) where
      leaf-lt :
          (p w : Policy B K) (a : Bool) → p ≡ w → n_terminals (normalized (replaced eq p w a)) < 1
      leaf-lt p w a e =
          subst (λ u. n_terminals (normalized (replaced eq p u a)) < 1) e
            (rw (reflexive p) (constant-lt 0 a))

      constrained_first-lt :
          (p w : Policy B K) (a : Bool)
          → first_constraint p ≡ some w
          → Clean p
          → is_other p ≡ true
          → n_terminals (constrained eq p w a) < n_terminals p
      unfolding constrained n_terminals first_constraint
      constrained_first-lt Policy.trivial w a f c o = cc
      constrained_first-lt Policy.unsatisfiable w a f c o = cc
      constrained_first-lt (Policy.thresh k nil) w a f c o = cc
      constrained_first-lt (Policy.thresh k (cons q qs)) w a f c o = omega (
        arith,
        constrained_first-lt q w a f c.1 c.0,
        constrained_all-le qs w a,
        normalized-thresh-le k (constrained_all eq (cons q qs) w a),
      )
      constrained_first-lt p w a f c o = leaf-lt p w a cc

    module _ (w : Policy B K) (a : Bool) where
      replaced-Plain : (p : Policy B K) → Plain p → Plain (replaced eq p w a)
      replaced-Plain p h = elim (Bool-cases (eq p w)) [
        | inl same ↦ rw same (constant-Plain a)
        | inr other ↦ rw other h
      ]

      mutual
        unfolding constrained has_inscribe

        constrained-Plain : (p : Policy B K) → Plain p → Plain (constrained eq p w a)
        constrained-Plain (Policy.thresh k subs) h =
            normalized-Plain (Policy.thresh k (constrained_all eq subs w a))
              (constrained_all-AllPlain subs h)
        constrained-Plain p h = normalized-Plain (replaced eq p w a) (replaced-Plain p h)

        constrained_all-AllPlain :
            (ps : Policies B K) → AllPlain ps → AllPlain (constrained_all eq ps w a)
        constrained_all-AllPlain nil h = h
        constrained_all-AllPlain (cons p ps) h =
            let (x, y) = AllPlain-cons p ps h in
            cons-AllPlain (constrained eq p w a) (constrained_all eq ps w a) (constrained-Plain p x)
              (constrained_all-AllPlain ps y)

  -- An answer, which is right if it is yes.
  abbrev pub Answer : Result NoAnswer Bool → Policy B K → Policy B K → Type 0
  Answer r a b =
      (yes : Bool) × (r ≡ ok yes)
      × (yes ≡ true → (v : Policy B K → Bool) → holds v a ≡ true → holds v b ≡ true)

  constant-Answer :
      (eq : Policy B K → Policy B K → Bool) (again : Policy B K → Policy B K → Result NoAnswer Bool)
      (a b : Policy B K)
      → is_other a ≡ false
      → Answer (decided eq again a b) a b
  unfolding holds
  constant-Answer eq again Policy.unsatisfiable b h = (true, refl, (λ _ v e. cc))
  constant-Answer eq again Policy.trivial Policy.trivial h = (true, refl, (λ _ v e. refl))
  constant-Answer eq again Policy.trivial b h = (false, refl, (λ e. cc))
  constant-Answer eq again a b h = cc

  denied :
      (eq : Policy B K → Policy B K → Bool) (again : Policy B K → Policy B K → Result NoAnswer Bool)
      (a b : Policy B K)
      → is_other a ≡ true
      → is_unsatisfiable b ≡ true
      → decided eq again a b ≡ ok false
  denied eq again Policy.unsatisfiable b h g = cc
  denied eq again Policy.trivial b h g = cc
  denied eq again a Policy.unsatisfiable h g = refl
  denied eq again a b h g = cc

  split_up :
      (eq : Policy B K → Policy B K → Bool) (again : Policy B K → Policy B K → Result NoAnswer Bool)
      (a b : Policy B K)
      → is_other a ≡ true
      → is_unsatisfiable b ≡ false
      → decided eq again a b ≡ split eq again (normalized a) (normalized b)
  split_up eq again Policy.unsatisfiable b h g = cc
  split_up eq again Policy.trivial b h g = cc
  split_up eq again a Policy.unsatisfiable h g = cc
  split_up eq again a b h g = refl

  module _ (eq : Policy B K → Policy B K → Bool) (reflexive : (q : Policy B K) → eq q q ≡ true)
      (sound : (p q : Policy B K) → eq p q ≡ true → p ≡ q) where
    -- A yes to both policies with the constraint at the value that it has is a yes to both.
    transfer :
        (v : Policy B K → Bool) (a b w : Policy B K) (x : Bool)
        → holds v w ≡ x
        → (holds v (constrained eq a w x) ≡ true → holds v (constrained eq b w x) ≡ true)
        → holds v a ≡ true
        → holds v b ≡ true
    transfer v a b w x e =
        subst
          (λ y.
            (holds v (constrained eq a w y) ≡ true → holds v (constrained eq b w y) ≡ true)
            → holds v a ≡ true
            → holds v b ≡ true)
          e
          (λ f h. sym (constrained-holds eq v w sound b) ∙ f (constrained-holds eq v w sound a ∙ h))

    split-Answer :
        (again : Policy B K → Policy B K → Result NoAnswer Bool) (a b : Policy B K)
        → HasSubs a
        → ((w : Policy B K)
            → first_constraint a ≡ some w
            → (x : Bool)
            → Answer
                (again (constrained eq a w x) (constrained eq b w x))
                (constrained eq a w x)
                (constrained eq b w x))
        → Answer (split eq again a b) a b
    unfolding satisfy_constraint
    split-Answer again a b subs ih =
        let (w, first, leaf) = first_constraint-some a subs in
        let (y, e, f) = ih w first true in
        let (z, g, h) = ih w first false in
        let (answer, r, both) = joined y z _ _ e g in
        (
          answer,
          rw (first, leaf) r,
          (λ t v. elim (Bool-cases (holds v w)) [
            | inl on ↦ transfer v a b w true on (f (both t).0 v)
            | inr off ↦ transfer v a b w false off (h (both t).1 v)
          ]),
        )

    -- Fuel for a call on the policy: one for a constant, and else two more than its terminals.
    abbrev Enough : ℕ → Policy B K → Type 0
    Enough fuel a = (1 ≤ fuel) × (is_other a ≡ true → n_terminals a + 2 ≤ fuel)

    measure-constrained :
        (fuel : ℕ) (a w : Policy B K) (x : Bool)
        → first_constraint (normalized a) ≡ some w
        → n_terminals a + 2 ≤ suc fuel
        → Enough fuel (constrained eq (normalized a) w x)
    measure-constrained fuel a w x first le = (
      omega arith,
      (λ other. elim (Bool-cases (is_other (normalized a))) [
        | inl open_still ↦ omega (
          arith,
          n_terminals-normalized a,
          constrained_first-lt eq reflexive (normalized a) w x first (normalized-Clean a)
              open_still,
        )
        | inr closed ↦ let e = constant_stays eq (normalized a) w x closed in cc
      ]),
    )

    -- On policies without inscriptions, the first with at most 20 terminals, and with the fuel above,
    -- `entails` answers, and a yes means that the second policy holds wherever the first does.
    entails-Answer :
        (fuel : ℕ) (a b : Policy B K)
        → Enough fuel a
        → n_terminals a ≤ 20
        → Plain a
        → Plain b
        → Answer (entails eq fuel a b) a b
    unfolding entails
    entails-Answer zero a b enough few p q = absurd (omega (arith, enough.0))
    entails-Answer (suc fuel) a b enough few p q =
        let few' : ltb entailment_max_terminals (n_terminals a) ≡ false = ground (arith, few) in
        rw (p, q, few')
          (elim (Bool-cases (is_other a)) [
            | inr closed ↦ constant-Answer eq (entails eq fuel) a b closed
            | inl open_still ↦ elim (Bool-cases (is_unsatisfiable b)) [
              | inl never ↦ (false, denied eq (entails eq fuel) a b open_still never, (λ e. cc))
              | inr maybe ↦
                  let (answer, e, f) =
                    split-Answer (entails eq fuel) (normalized a) (normalized b)
                      (normalized-HasSubs a)
                      (λ w first x.
                        entails-Answer fuel (constrained eq (normalized a) w x)
                          (constrained eq (normalized b) w x)
                          (measure-constrained fuel a w x first (enough.1 open_still))
                          (omega (
                            arith,
                            few,
                            n_terminals-normalized a,
                            constrained-le eq (normalized a) w x,
                          ))
                          (constrained-Plain eq w x (normalized a) (normalized-Plain a p))
                          (constrained-Plain eq w x (normalized b) (normalized-Plain b q))) in
                  (
                    answer,
                    split_up eq (entails eq fuel) a b open_still maybe ∙ e,
                    (λ yes_ v h. sym (normalized-holds v b) ∙ f yes_ v (normalized-holds v a ∙ h)),
                  )
            ]
          ])

    -- `entails` ends, and is sound: for policies without inscriptions, the first of at most 20
    -- terminals, on any fuel of at least 22, there is an answer, and if it is yes, then the second
    -- policy holds under all keys, preimages and lock times under which the first does. The equality
    -- is reflexive and only relates equal policies.
    pub entails_sound :
        (fuel : ℕ) (a b : Policy B K)
        → 22 ≤ fuel
        → n_terminals a ≤ 20
        → has_inscribe a ≡ false
        → has_inscribe b ≡ false
        → Answer (entails eq fuel a b) a b
    entails_sound fuel a b f few p q =
        entails-Answer fuel a b (omega arith, (λ o. omega arith)) few p q
