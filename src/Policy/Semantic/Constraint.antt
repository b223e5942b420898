-- ===== src/Policy/Semantic/Constraint.antt =====
-- `satisfy_constraint` and `first_constraint` of src/policy/semantic.rs. The derived equality of
-- policies, over that of the keys, is an argument.
use rust_miniscript.Prelude.{
  ℕ, ◌+◌, Bool, true, false, leb, from_bool, if◌then◌else◌, Option, none, some, ◌≡◌, refl, sym, ap,
  ap₂, ◌∙◌, Bool-cases, inl, inr,
}
use rust_miniscript.Primitives.Locktime.{Bitcoin}
use rust_miniscript.Miniscript.Ast.{MiniscriptKey}
use rust_miniscript.Policy.Semantic.{Policy, Policies, nil, cons, normalized, holds, count}
use rust_miniscript.Policy.Semantic.Meaning.{normalized-holds}

module _ {B : Bitcoin} {K : MiniscriptKey} where
  -- The leftmost leaf; an index out of range panics, which is `none`.
  unfoldable pub first_constraint : Policy B K → Option (Policy B K)
  first_constraint (Policy.thresh k nil) = none
  first_constraint (Policy.thresh k (cons p ps)) = first_constraint p
  first_constraint first = some first

  abbrev pub is_thresh : Policy B K → Bool
  is_thresh (Policy.thresh k subs) = true
  is_thresh _ = false

  module _ (eq : Policy B K → Policy B K → Bool) where
    abbrev pub replaced : Policy B K → Policy B K → Bool → Policy B K
    replaced p witness available =
        if eq p witness then (if available then Policy.trivial else Policy.unsatisfiable) else p

    unfoldable mutual
      pub constrained : Policy B K → Policy B K → Bool → Policy B K
      constrained (Policy.thresh k subs) witness available =
          normalized (Policy.thresh k (constrained_all subs witness available))
      constrained x witness available = normalized (replaced x witness available)

      pub constrained_all : Policies B K → Policy B K → Bool → Policies B K
      constrained_all nil witness available = nil
      constrained_all (cons p ps) witness available =
          cons (constrained p witness available) (constrained_all ps witness available)

    -- A threshold as the witness panics, which is `none`.
    unfoldable pub satisfy_constraint : Policy B K → Policy B K → Bool → Option (Policy B K)
    unfolding constrained
    satisfy_constraint p witness available =
        if is_thresh witness then none else some (constrained p witness available)

    module _ (v : Policy B K → Bool) (witness : Policy B K)
        (sound : (p q : Policy B K) → eq p q ≡ true → p ≡ q) where
      constant : (b : Bool) → holds v (if b then Policy.trivial else Policy.unsatisfiable) ≡ b
      unfolding holds
      constant true = refl
      constant false = refl

      replaced-holds : (p : Policy B K) → holds v (replaced p witness (holds v witness)) ≡ holds v p
      replaced-holds p = elim (Bool-cases (eq p witness)) [
        | inl same ↦
            rw same (constant (holds v witness) ∙ ap (holds v) (sym (sound p witness same)))
        | inr other ↦ rw other refl
      ]

      thresh_eq :
          (k : ℕ) (ps qs : Policies B K)
          → count v ps ≡ count v qs
          → holds v (Policy.thresh k ps) ≡ holds v (Policy.thresh k qs)
      unfolding holds
      thresh_eq k ps qs e = ap (leb k) e

      cons_eq :
          (p : Policy B K) (ps : Policies B K) (q : Policy B K) (qs : Policies B K)
          → holds v q ≡ holds v p
          → count v qs ≡ count v ps
          → count v (cons q qs) ≡ count v (cons p ps)
      unfolding holds
      cons_eq p ps q qs e f = ap₂ (λ x n. from_bool x + n) e f

      mutual
        unfolding constrained

        pub constrained-holds :
            (p : Policy B K) → holds v (constrained p witness (holds v witness)) ≡ holds v p
        constrained-holds (Policy.thresh k subs) =
            normalized-holds v (Policy.thresh k (constrained_all subs witness (holds v witness)))
            ∙ thresh_eq k _ subs (constrained_all-count subs)
        constrained-holds p =
            normalized-holds v (replaced p witness (holds v witness)) ∙ replaced-holds p

        constrained_all-count :
            (ps : Policies B K)
            → count v (constrained_all ps witness (holds v witness)) ≡ count v ps
        constrained_all-count nil = refl
        constrained_all-count (cons p ps) =
            cons_eq p ps _ _ (constrained-holds p) (constrained_all-count ps)

      -- Where the witness is no threshold and is available exactly if it holds, `satisfy_constraint`
      -- gives a policy that holds exactly where the original does.
      pub satisfy_constraint-holds :
          (p : Policy B K)
          → is_thresh witness ≡ false
          → (q : Policy B K) × (satisfy_constraint p witness (holds v witness) ≡ some q)
            × (holds v q ≡ holds v p)
      unfolding satisfy_constraint
      satisfy_constraint-holds p leaf =
          (constrained p witness (holds v witness), rw leaf refl, constrained-holds p)
