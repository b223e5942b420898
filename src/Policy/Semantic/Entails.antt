-- ===== src/Policy/Semantic/Entails.antt =====
-- `entails` and `n_terminals` of src/policy/semantic.rs. The recursion of `entails` is on fuel, and
-- the derived equality of policies is an argument.
use rust_miniscript.Prelude.{
  ℕ, zero, suc, ◌+◌, Bool, true, false, ◌||◌, ltb, if◌then◌else◌, Option, none, some, Result, ok,
  err, ◌>>=◌, ◌≡◌, refl, sym, ap, ◌∙◌,
}
use rust_miniscript.Primitives.Locktime.{Bitcoin}
use rust_miniscript.Miniscript.Ast.{MiniscriptKey}
use rust_miniscript.Policy.Semantic.{Policy, Policies, nil, cons, normalized, holds}
use rust_miniscript.Policy.Semantic.Meaning.{normalized-holds}
use rust_miniscript.Policy.Semantic.Constraint.{first_constraint, satisfy_constraint}

abbrev pub entailment_max_terminals : ℕ
entailment_max_terminals = 20

-- Why there is no answer: the code's `None`, a panic, or the end of the fuel.
pub data NoAnswer : Type 0 where
  not_computed panic out_of_fuel : NoAnswer

abbrev pub or_panic {ℓ} : {A : Type ℓ} → Option A → Result NoAnswer A
or_panic none = err NoAnswer.panic
or_panic (some a) = ok a

module _ {B : Bitcoin} {K : MiniscriptKey} where
  unfoldable mutual
    pub has_inscribe : Policy B K → Bool
    has_inscribe (Policy.inscribe i sub) = true
    has_inscribe (Policy.thresh k subs) = any_has_inscribe subs
    has_inscribe _ = false

    pub any_has_inscribe : Policies B K → Bool
    any_has_inscribe nil = false
    any_has_inscribe (cons p ps) = has_inscribe p || any_has_inscribe ps

  -- Only called on policies without inscriptions.
  unfoldable mutual
    pub n_terminals : Policy B K → ℕ
    n_terminals (Policy.thresh k subs) = n_terminals_all subs
    n_terminals Policy.trivial = 0
    n_terminals Policy.unsatisfiable = 0
    n_terminals _ = 1

    pub n_terminals_all : Policies B K → ℕ
    n_terminals_all nil = 0
    n_terminals_all (cons p ps) = n_terminals p + n_terminals_all ps

  module _ (eq : Policy B K → Policy B K → Bool) where
    -- Both policies with the first constraint of the first one given and taken away; the second
    -- call is only made where the first says yes.
    abbrev pub split :
        (Policy B K → Policy B K → Result NoAnswer Bool)
        → Policy B K
        → Policy B K
        → Result NoAnswer Bool
    split again a b = do
      witness ← or_panic (first_constraint a)
      a1 ← or_panic (satisfy_constraint eq a witness true)
      b1 ← or_panic (satisfy_constraint eq b witness true)
      a2 ← or_panic (satisfy_constraint eq a witness false)
      b2 ← or_panic (satisfy_constraint eq b witness false)
      first ← again a1 b1
      if first then again a2 b2 else ok false

    abbrev pub decided :
        (Policy B K → Policy B K → Result NoAnswer Bool)
        → Policy B K
        → Policy B K
        → Result NoAnswer Bool
    decided again Policy.unsatisfiable _ = ok true
    decided again Policy.trivial Policy.trivial = ok true
    decided again Policy.trivial _ = ok false
    decided again _ Policy.unsatisfiable = ok false
    decided again a b = split again (normalized a) (normalized b)

    unfoldable pub entails : ℕ → Policy B K → Policy B K → Result NoAnswer Bool
    unfolding has_inscribe n_terminals
    entails zero a b = err NoAnswer.out_of_fuel
    entails (suc fuel) a b =
        let rest = entails fuel in
        if has_inscribe a || has_inscribe b
        then err NoAnswer.not_computed
        else if ltb entailment_max_terminals (n_terminals a)
        then err NoAnswer.not_computed
        else decided rest a b

    -- A threshold that `normalized` turns into `Unsatisfiable` never holds, and yet `entails` denies
    -- that it entails a key: for a threshold of at most 20 terminals without inscriptions, on any
    -- fuel of at least 2, and an equality that knows `Unsatisfiable` and tells the key from it.
    pub entails-unsatisfiable :
        (fuel k : ℕ) (subs : Policies B K) (pk : K.Pk)
        → normalized (Policy.thresh k subs) ≡ Policy.unsatisfiable
        → has_inscribe (Policy.thresh k subs) ≡ false
        → ltb entailment_max_terminals (n_terminals (Policy.thresh k subs)) ≡ false
        → eq Policy.unsatisfiable Policy.unsatisfiable ≡ true
        → eq (Policy.key pk) Policy.unsatisfiable ≡ false
        → ((v : Policy B K → Bool) → holds v (Policy.thresh k subs) ≡ false)
          × (entails (suc (suc fuel)) (Policy.thresh k subs) (Policy.key pk) ≡ ok false)
    unfolding entails holds first_constraint satisfy_constraint normalized
    entails-unsatisfiable fuel k subs pk norm plain few same other = (
      (λ v. sym (normalized-holds v (Policy.thresh k subs)) ∙ ap (holds v) norm),
      rw (plain, few, norm, same, other) refl,
    )
