-- ===== src/Interpreter/Refine/Rounds.antt =====
-- The outputs of the iterator of src/interpreter/mod.rs on enough fuel, round by round.
use rust_miniscript.Prelude.{
  ℕ, suc, ◌+◌, false, none, some, List, [], ◌∷◌, ok, err, ◌≡◌, refl, ap, ◌∙◌, arith,
}
use rust_miniscript.Primitives.Locktime.{Bitcoin}
use rust_miniscript.Interpreter.Keys.{Crypto, SatisfiedConstraint, Error}
use rust_miniscript.Interpreter.Stack.{Element, Stack, Evaluation}
use rust_miniscript.Interpreter.Iter.{
  Script, NodeEvaluationState, Iter, Round, evaluated, pop_boolean,
}
use rust_miniscript.Interpreter.Machine.{Outputs, iter_next_round, outputs}
use rust_miniscript.Interpreter.Evaluator.{Run, Spend, play, leaf, boolean}

assoc_fuel : (n m fuel : ℕ) → n + m + fuel ≡ n + (m + fuel)
assoc_fuel n m fuel = omega arith

more_fuel : (n fuel : ℕ) → n + 1 + fuel ≡ suc (n + fuel)
more_fuel n fuel = omega arith

two_fuel : (fuel : ℕ) → 2 + fuel ≡ suc (suc fuel)
two_fuel fuel = omega arith

one_fuel : (fuel : ℕ) → 1 + fuel ≡ suc fuel
one_fuel fuel = omega arith

module _ {B : Bitcoin} (C : Crypto B) where
  -- The iterator for a script, with the nodes and the elements that are on its stacks.
  abbrev pub at : Spend C → List (NodeEvaluationState C) → Stack → Iter C
  at env state st = record {
    verify_sig = env.verify_sig;
    public_key = none;
    state = state;
    stack = st;
    sequence = env.sequence;
    lock_time = env.lock_time;
    tx_template = env.tx_template;
    has_errored = false;
    sig_type = env.sig_type;
  }

  abbrev pub fresh : Script C → NodeEvaluationState C
  fresh ms = record { node = ms; n_evaluated = 0; n_satisfied = 0 }

  abbrev pub entered : Script C → ℕ → ℕ → NodeEvaluationState C
  entered ms n m = record { node = ms; n_evaluated = n; n_satisfied = m }

  -- On enough fuel, and on any more, the iterator returns `o`.
  abbrev pub Ends : Iter C → Outputs C → Type 0
  Ends it o = (n : ℕ) × ((fuel : ℕ) → outputs C (n + fuel) it ≡ o)

  -- An iterator whose next round is `r` returns `o`.
  abbrev pub Leads : Round C → Outputs C → Type 0
  Leads r o = (it : Iter C) → it.has_errored ≡ false → iter_next_round C it ≡ r → Ends it o

  pub after_again : (jt : Iter C) (o : Outputs C) → Ends jt o → Leads (Round.again jt) o
  unfolding outputs
  after_again jt o (n, f) it h r =
      (n + 1, (λ fuel. ap (λ m. outputs C m it) (more_fuel n fuel) ∙ rw (r, h) (f fuel)))

  pub after_yield :
      (c : SatisfiedConstraint C) (jt : Iter C) (o : Outputs C)
      → Ends jt o
      → Leads (Round.returns (some (ok c)) jt) (Outputs.item (ok c) o)
  unfolding outputs
  after_yield c jt o (n, f) it h r = (
    n + 1,
    (λ fuel.
        ap (λ m. outputs C m it) (more_fuel n fuel)
        ∙ rw (r, h) (ap (Outputs.item (ok c)) (f fuel))),
  )

  pub after_fail :
      (e : Error C) (jt : Iter C)
      → Leads (Round.returns (some (err e)) jt) (Outputs.item (err e) Outputs.ends)
  unfolding outputs
  after_fail e jt it h r = (2, (λ fuel. ap (λ m. outputs C m it) (two_fuel fuel) ∙ rw (r, h) refl))

  pub after_panic : Leads Round.panics Outputs.panics
  unfolding outputs
  after_panic it h r = (1, (λ fuel. ap (λ m. outputs C m it) (one_fuel fuel) ∙ rw (r, h) refl))

  pub after_none : (jt : Iter C) → Leads (Round.returns none jt) Outputs.ends
  unfolding outputs
  after_none jt it h r = (1, (λ fuel. ap (λ m. outputs C m it) (one_fuel fuel) ∙ rw (r, h) refl))

  module _ (env : Spend C) (rest : List (NodeEvaluationState C)) (k : Stack → Outputs C) where
    -- What is on the stack of nodes returns `k` of the elements it starts with.
    abbrev pub Continues : Type 0
    Continues = (st : Stack) → Ends (at env rest st) (k st)

    pub leaf-Leads :
        Continues
        → (r : Evaluation C × Stack) (old : Stack)
        → Leads (evaluated C (at env rest old) r) (play C (leaf C r) k)
    leaf-Leads next (none, st) old = after_again (at env rest st) (k st) (next st)
    leaf-Leads next (some (ok c), st) old = after_yield c (at env rest st) (k st) (next st)
    leaf-Leads next (some (err e), st) old = after_fail e (at env rest st)

    pub boolean-Leads :
        (on_dissatisfied on_satisfied : Iter C → Round C) (f g : Stack → Run C)
        → ((st : Stack) → Leads (on_dissatisfied (at env rest st)) (play C (f st) k))
        → ((st : Stack) → Leads (on_satisfied (at env rest st)) (play C (g st) k))
        → (st old : Stack)
        → Leads
            (pop_boolean C (at env rest old) on_dissatisfied on_satisfied st)
            (play C (boolean C f g st) k)
    boolean-Leads on_dissatisfied on_satisfied f g p q (Element.dissatisfied ∷ st) old = p st
    boolean-Leads on_dissatisfied on_satisfied f g p q (Element.satisfied ∷ st) old = q st
    boolean-Leads on_dissatisfied on_satisfied f g p q (Element.push v ∷ st) old =
        after_fail Error.unexpected_stack_element_push (at env rest st)
    boolean-Leads on_dissatisfied on_satisfied f g p q [] old =
        after_fail Error.unexpected_stack_end (at env rest [])
