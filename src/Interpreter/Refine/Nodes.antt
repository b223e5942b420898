-- ===== src/Interpreter/Refine/Nodes.antt =====
-- The steps of `Iter` of src/interpreter/mod.rs at each fragment, against the recursive evaluation.
use rust_miniscript.Prelude.{Bool-cases, Option, none, some, List, [], ◌∷◌, inl, inr, sym, subst}
use rust_miniscript.Primitives.Locktime.{Bitcoin}
use rust_miniscript.Types.Fragment.{Ty}
use rust_miniscript.Ext.Data.{ExtData}
use rust_miniscript.Miniscript.Ast.{Bytes, Terminal, miniscript}
use rust_miniscript.Interpreter.Keys.{Crypto, SatisfiedConstraint, Error}
use rust_miniscript.Interpreter.Stack.{Element, Stack, evaluate_older}
use rust_miniscript.Interpreter.Iter.{Script, NodeEvaluationState, Round}
use rust_miniscript.Interpreter.Arms.{verified, not_equal, and_b_end, or_b_end}
use rust_miniscript.Interpreter.Machine.{older_round, template_is, Outputs, evaluate_node}
use rust_miniscript.Interpreter.Evaluator.{
  Run, Spend, play, and_then, and_then-play, verify_top, not_zero, and_top, replace_top, older_leaf,
  template_leaf, eval,
}
use rust_miniscript.Interpreter.Refine.Rounds.{
  at, fresh, Ends, Leads, Continues, after_again, after_yield, after_fail, after_panic, leaf-Leads,
}

module _ {B : Bitcoin} (C : Crypto B) (env : Spend C) where
  -- Whatever is below on the stack of nodes, and whatever it returns, a node is evaluated first.
  abbrev pub EndsFor : (Stack → Run C) → NodeEvaluationState C → Type 0
  EndsFor run s =
      (rest : List (NodeEvaluationState C)) (k : Stack → Outputs C)
      → Continues C env rest k
      → (st : Stack) → Ends C (at C env (s ∷ rest) st) (play C (run st) k)

  module _ (rest : List (NodeEvaluationState C)) (k : Stack → Outputs C)
      (next : Continues C env rest k) where
    pub again-Leads : (st : Stack) → Leads C (Round.again (at C env rest st)) (k st)
    again-Leads st = after_again C (at C env rest st) (k st) (next st)

    pub verified-Leads :
        (st old : Stack) → Leads C (verified C (at C env rest old) st) (play C (verify_top C st) k)
    verified-Leads [] old = after_fail C Error.unexpected_stack_end (at C env rest [])
    verified-Leads (Element.satisfied ∷ st) old = again-Leads st
    verified-Leads (Element.dissatisfied ∷ st) old =
        after_fail C Error.verify_failed (at C env rest st)
    verified-Leads (Element.push v ∷ st) old = after_fail C Error.verify_failed (at C env rest st)

    pub not_equal-Leads :
        (st old : Stack) → Leads C (not_equal C (at C env rest old) st) (play C (not_zero C st) k)
    not_equal-Leads [] old = after_fail C Error.unexpected_stack_end (at C env rest [])
    not_equal-Leads (Element.dissatisfied ∷ st) old = again-Leads (Element.dissatisfied ∷ st)
    not_equal-Leads (Element.satisfied ∷ st) old = again-Leads (Element.satisfied ∷ st)
    not_equal-Leads (Element.push v ∷ st) old = again-Leads (Element.satisfied ∷ st)

    pub and_b_end-Leads :
        (st old : Stack) → Leads C (and_b_end C (at C env rest old) 1 st) (play C (and_top C st) k)
    and_b_end-Leads [] old = after_fail C Error.unexpected_stack_end (at C env rest [])
    and_b_end-Leads (Element.dissatisfied ∷ st) old = again-Leads (Element.dissatisfied ∷ st)
    and_b_end-Leads (Element.satisfied ∷ st) old = again-Leads (Element.satisfied ∷ st)
    and_b_end-Leads (Element.push v ∷ st) old = again-Leads (Element.dissatisfied ∷ st)

    pub and_b_end-Leads_failed :
        (st old : Stack)
        → Leads C
            (and_b_end C (at C env rest old) 0 st)
            (play C (replace_top C Element.dissatisfied st) k)
    and_b_end-Leads_failed [] old = after_fail C Error.unexpected_stack_end (at C env rest [])
    and_b_end-Leads_failed (Element.dissatisfied ∷ st) old = again-Leads (Element.dissatisfied ∷ st)
    and_b_end-Leads_failed (Element.satisfied ∷ st) old = again-Leads (Element.dissatisfied ∷ st)
    and_b_end-Leads_failed (Element.push v ∷ st) old = again-Leads (Element.dissatisfied ∷ st)

    pub or_b_end-Leads :
        (st old : Stack) → Leads C (or_b_end C (at C env rest old) 0 st) (play C (not_zero C st) k)
    or_b_end-Leads [] old = after_fail C Error.unexpected_stack_end (at C env rest [])
    or_b_end-Leads (Element.dissatisfied ∷ st) old = again-Leads (Element.dissatisfied ∷ st)
    or_b_end-Leads (Element.satisfied ∷ st) old = again-Leads (Element.satisfied ∷ st)
    or_b_end-Leads (Element.push v ∷ st) old = again-Leads (Element.satisfied ∷ st)

    pub or_b_end-Leads_passed :
        (st old : Stack)
        → Leads C
            (or_b_end C (at C env rest old) 1 st)
            (play C (replace_top C Element.satisfied st) k)
    or_b_end-Leads_passed [] old = after_fail C Error.unexpected_stack_end (at C env rest [])
    or_b_end-Leads_passed (Element.dissatisfied ∷ st) old = again-Leads (Element.satisfied ∷ st)
    or_b_end-Leads_passed (Element.satisfied ∷ st) old = again-Leads (Element.satisfied ∷ st)
    or_b_end-Leads_passed (Element.push v ∷ st) old = again-Leads (Element.satisfied ∷ st)

    pub older-Leads :
        (o : Option C.RelativeLockTime) (st : Stack)
        → Leads C (older_round C (at C env rest st) o) (play C (older_leaf C env o st) k)
    older-Leads none st = after_panic C
    older-Leads (some n) st = leaf-Leads C env rest k next (evaluate_older C n env.sequence st) st

    pub template-Leads :
        (hash : Bytes) (st : Stack) (e : ExtData) (w : Ty)
        → Leads C
            (evaluate_node C
              (at C env rest st)
              (miniscript (Terminal.tx_template hash) w e)
              (Terminal.tx_template hash)
              0
              0)
            (play C (template_leaf C env hash st) k)
    unfolding evaluate_node
    template-Leads hash st e w = elim (Bool-cases (template_is C env.tx_template hash)) [
      | inl h ↦
          rw h (
            after_yield C (SatisfiedConstraint.tx_template hash) (at C env rest st) (k st)
              (next st))
      | inr h ↦ rw h (after_fail C Error.tx_template_hash_wrong (at C env rest st))
    ]

  -- A round that pushes a child, whose evaluation is followed by that of what is below it.
  pub child-Leads :
      (s : Script C) (f : Stack → Run C) (above : List (NodeEvaluationState C))
      (k : Stack → Outputs C)
      → EndsFor (eval C env s) (fresh C s)
      → ((st : Stack) → Ends C (at C env above st) (play C (f st) k))
      → (st : Stack)
      → Leads C
          (Round.again (at C env (fresh C s ∷ above) st))
          (play C (and_then C (eval C env s st) f) k)
  child-Leads s f above k ends below st =
      subst (Leads C (Round.again (at C env (fresh C s ∷ above) st)))
        (sym (and_then-play C (eval C env s st) f k))
        (after_again C (at C env (fresh C s ∷ above) st)
          (play C (eval C env s st) (λ st'. play C (f st') k))
          (ends above (λ st'. play C (f st') k) below st))

  pub only-Leads :
      (s : Script C) (rest : List (NodeEvaluationState C)) (k : Stack → Outputs C)
      → EndsFor (eval C env s) (fresh C s)
      → Continues C env rest k
      → (st : Stack)
      → Leads C (Round.again (at C env (fresh C s ∷ rest) st)) (play C (eval C env s st) k)
  only-Leads s rest k ends next st =
      after_again C (at C env (fresh C s ∷ rest) st) (play C (eval C env s st) k)
        (ends rest k next st)
