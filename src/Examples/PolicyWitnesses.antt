-- ===== src/Examples/PolicyWitnesses.antt =====
-- The theorems on policies at `and(pk(1),and(pk(2),or(older(10),UNSATISFIABLE,pk(5))))` and at a
-- threshold that cannot be reached.
use rust_miniscript.Prelude.{
  ok, Bool, true, false, not, ◌==◌, leb, ◌≡◌, ◌↔◌, none, some, refl, ap, ==_iff, arith,
}
use native.Mathlib.Decide.{ℕ_discrete}
use rust_miniscript.Primitives.Locktime.{AbsLockTime, RelLockTime}
use rust_miniscript.Policy.Semantic.{Policy, Policies, nil, cons, normalized, holds}
use rust_miniscript.Policy.Semantic.Meaning.{normalized-holds}
use rust_miniscript.Policy.Semantic.Filter.{
  at_age, with_age, at_age-holds, at_lock_time, with_lock_time, at_lock_time-holds,
}
use rust_miniscript.Policy.Semantic.Keys.{minimum_n_keys, minimum_n_keys-none}
use rust_miniscript.Policy.Semantic.Constraint.{satisfy_constraint, satisfy_constraint-holds}
use rust_miniscript.Policy.Semantic.Entails.{
  entails, has_inscribe, n_terminals, entails-unsatisfiable,
}
use rust_miniscript.Policy.Semantic.Ends.{Answer, entails_sound}
use rust_miniscript.Examples.Setting.{numbers, key_numbers}

abbrev Spending : Type 0
Spending = Policy numbers key_numbers

abbrev two : Spending → Spending → Policies numbers key_numbers
two p q = cons p (cons q nil)

abbrev delayed : Spending
delayed =
    Policy.thresh 1
      (cons (Policy.older (record { inner = 10 })) (two Policy.unsatisfiable (Policy.key 5)))

abbrev policy : Spending
policy = Policy.thresh 2 (two (Policy.key 1) (Policy.thresh 2 (two (Policy.key 2) delayed)))

-- Every key but the first, and every lock time, is available.
abbrev available : Spending → Bool
available (Policy.key pk) = not (pk == 1)
available _ = true

normalized-holds_example : holds available (normalized policy) ≡ holds available policy
normalized-holds_example = normalized-holds available policy

abbrev younger : RelLockTime numbers → Bool
younger t = leb t.inner 9

at_age-holds_example :
    holds available (at_age younger policy) ≡ holds (with_age younger available) policy
at_age-holds_example = at_age-holds younger available policy

abbrev earlier : AbsLockTime numbers → Bool
earlier t = leb t.inner 99

abbrev later : Spending
later = Policy.thresh 1 (two (Policy.after (record { inner = 100 })) (Policy.key 1))

at_lock_time-holds_example :
    holds available (at_lock_time earlier later) ≡ holds (with_lock_time earlier available) later
at_lock_time-holds_example = at_lock_time-holds earlier available later

abbrev unreachable : Spending
unreachable = Policy.thresh 2 (two (Policy.key 1) Policy.unsatisfiable)

minimum_n_keys-none_example :
    (minimum_n_keys unreachable ≡ none) ↔ ((v : Spending → Bool) → holds v unreachable ≡ false)
minimum_n_keys-none_example = minimum_n_keys-none unreachable

-- An equality that knows keys and `Unsatisfiable` only.
abbrev same_key : Spending → Spending → Bool
same_key (Policy.key j) (Policy.key k) = j == k
same_key Policy.unsatisfiable Policy.unsatisfiable = true
same_key _ _ = false

same_key_sound : (p q : Spending) → same_key p q ≡ true → p ≡ q
same_key_sound (Policy.key j) (Policy.key k) h = ap Policy.key ((==_iff j k).0 h)
same_key_sound Policy.unsatisfiable Policy.unsatisfiable h = refl
same_key_sound _ _ h = cc

satisfy_constraint-holds_example :
    (q : Spending) × (satisfy_constraint same_key policy (Policy.key 2) true ≡ some q)
    × (holds available q ≡ holds available policy)
unfolding holds
satisfy_constraint-holds_example =
    satisfy_constraint-holds same_key available (Policy.key 2) same_key_sound policy refl

entails-unsatisfiable_example :
    ((v : Spending → Bool) → holds v unreachable ≡ false)
    × (entails same_key 2 unreachable (Policy.key 7) ≡ ok false)
unfolding normalized has_inscribe n_terminals
entails-unsatisfiable_example =
    entails-unsatisfiable same_key 0 2 (two (Policy.key 1) Policy.unsatisfiable) 7 refl refl refl
      refl refl

Spending_discrete : Discrete Spending
Spending_discrete = hlevel ℕ_discrete

abbrev decided_by : {P : Type 0} → Dec P → Bool
decided_by (yes p) = true
decided_by (no p) = false

same : Spending → Spending → Bool
same p q = decided_by (Spending_discrete p q)

same_refl : (p : Spending) → same p p ≡ true
unfolding same
same_refl p = elim (Spending_discrete p p) as (λ d. decided_by d ≡ true) [
  | yes e ↦ refl
  | no e ↦ absurd (e refl)
]

same_sound : (p q : Spending) → same p q ≡ true → p ≡ q
unfolding same
same_sound p q = elim (Spending_discrete p q) as (λ d. decided_by d ≡ true → p ≡ q) [
  | yes e ↦ λ h. e
  | no e ↦ λ h. cc
]

entails_sound_example : Answer (entails same 22 policy later) policy later
unfolding n_terminals has_inscribe
entails_sound_example =
    entails_sound same same_refl same_sound 22 policy later (omega arith) (omega arith) refl refl
