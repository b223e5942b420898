-- ===== src/Interpreter/Machine.antt =====
-- One round of the loop of `iter_next` of src/interpreter/mod.rs, and the results of the calls of `next`,
-- which are computed on fuel for the rounds.
use rust_miniscript.Prelude.{
  ℕ, zero, suc, Bool, true, false, Option, none, some, List, [], ◌∷◌, ◌==◌, Result, ok, err,
  if◌then◌else◌,
}
use rust_miniscript.Primitives.Locktime.{Bitcoin}
use rust_miniscript.Miniscript.Ast.{Bytes, Terminal, node}
use rust_miniscript.Interpreter.Keys.{
  Crypto, BitcoinKey, KeySigPair, SatisfiedConstraint, Error, bytes_eq, to_pubkeyhash,
  verify_sersig,
}
use rust_miniscript.Interpreter.Stack.{
  Element, Stack, evaluate_pk, evaluate_pkh, evaluate_after, evaluate_older, evaluate_sha256,
  evaluate_hash256, evaluate_hash160, evaluate_ripemd160,
}
use rust_miniscript.Interpreter.Iter.{
  Script, Node, NodeEvaluationState, Iter, Round, with_stack, push_evaluation_state, fails,
  evaluated, push_element,
}
use rust_miniscript.Interpreter.Arms.{
  dup_if_round, then_again, verified, not_equal, non_zero_round, right_round, and_b_end, or_b_end,
  either_round, or_c_round, or_d_round, thresh_round,
}
use rust_miniscript.Interpreter.Arms.Multi.{multi_a_round, multi_round}

module _ {B : Bitcoin} (C : Crypto B) where
  abbrev pub template_is : Option Bytes → Bytes → Bool
  template_is none hash = false
  template_is (some h) hash = bytes_eq h hash

  -- `(*n).into()` unwraps the relative lock time.
  abbrev pub older_round : Iter C → Option C.RelativeLockTime → Round C
  older_round it none = Round.panics
  older_round it (some n) = evaluated C it (evaluate_older C n it.sequence it.stack)

  -- The match on the node that was popped from the state, of which `it` is what remains.
  unfoldable pub evaluate_node : Iter C → Script C → Node C → ℕ → ℕ → Round C
  evaluate_node it ms Terminal.true _ _ = Round.again (push_element C Element.satisfied it)
  evaluate_node it ms Terminal.false _ _ = Round.again (push_element C Element.dissatisfied it)
  evaluate_node it ms (Terminal.pk_k pk) _ _ =
      evaluated C it (evaluate_pk C it.verify_sig pk it.stack)
  evaluate_node it ms (Terminal.pk_h pk) _ _ =
      evaluated C it
        (evaluate_pkh C it.verify_sig (to_pubkeyhash C pk it.sig_type) it.sig_type it.stack)
  evaluate_node it ms (Terminal.raw_pk_h pkh) _ _ =
      evaluated C it (evaluate_pkh C it.verify_sig pkh it.sig_type it.stack)
  evaluate_node it ms (Terminal.tx_template hash) _ _ =
      if template_is it.tx_template hash
      then Round.returns (some (ok (SatisfiedConstraint.tx_template hash))) it
      else Round.returns (some (err Error.tx_template_hash_wrong)) it
  evaluate_node it ms (Terminal.after n) _ _ =
      evaluated C it (evaluate_after C n.inner it.lock_time it.stack)
  evaluate_node it ms (Terminal.older n) _ _ = older_round it (C.to_relative_lock_time n.inner)
  evaluate_node it ms (Terminal.sha256 hash) _ _ = evaluated C it (evaluate_sha256 C hash it.stack)
  evaluate_node it ms (Terminal.hash256 hash) _ _ =
      evaluated C it (evaluate_hash256 C hash it.stack)
  evaluate_node it ms (Terminal.hash160 hash) _ _ =
      evaluated C it (evaluate_hash160 C hash it.stack)
  evaluate_node it ms (Terminal.ripemd160 hash) _ _ =
      evaluated C it (evaluate_ripemd160 C hash it.stack)
  evaluate_node it ms (Terminal.alt sub) _ _ = Round.again (push_evaluation_state C sub 0 0 it)
  evaluate_node it ms (Terminal.swap sub) _ _ = Round.again (push_evaluation_state C sub 0 0 it)
  evaluate_node it ms (Terminal.check sub) _ _ = Round.again (push_evaluation_state C sub 0 0 it)
  evaluate_node it ms (Terminal.inscribe_pre _ sub) _ _ =
      Round.again (push_evaluation_state C sub 0 0 it)
  evaluate_node it ms (Terminal.inscribe_post _ sub) _ _ =
      Round.again (push_evaluation_state C sub 0 0 it)
  evaluate_node it ms (Terminal.dup_if sub) n_evaluated _ = dup_if_round C it ms sub n_evaluated
  evaluate_node it ms (Terminal.zero_not_equal sub) n_evaluated _ =
      if n_evaluated == 0
      then then_again C it ms sub
      else if n_evaluated == 1
      then not_equal C it it.stack
      else fails C it it.stack Error.could_not_evaluate
  evaluate_node it ms (Terminal.verify sub) n_evaluated _ =
      if n_evaluated == 0
      then then_again C it ms sub
      else if n_evaluated == 1
      then verified C it it.stack
      else fails C it it.stack Error.could_not_evaluate
  evaluate_node it ms (Terminal.non_zero sub) _ _ = non_zero_round C it sub it.stack
  evaluate_node it ms (Terminal.and_v left right) _ _ =
      Round.again (push_evaluation_state C left 0 0 (push_evaluation_state C right 0 0 it))
  evaluate_node it ms (Terminal.or_b left right) n_evaluated n_satisfied =
      if n_evaluated == 0
      then then_again C it ms left
      else if n_evaluated == 1
      then right_round C it ms right
      else if n_evaluated == 2
      then or_b_end C it n_satisfied it.stack
      else fails C it it.stack Error.could_not_evaluate
  evaluate_node it ms (Terminal.and_b left right) n_evaluated n_satisfied =
      if n_evaluated == 0
      then then_again C it ms left
      else if n_evaluated == 1
      then right_round C it ms right
      else if n_evaluated == 2
      then and_b_end C it n_satisfied it.stack
      else fails C it it.stack Error.could_not_evaluate
  evaluate_node it ms (Terminal.and_or first left right) n_evaluated _ =
      if n_evaluated == 0 then then_again C it ms first else either_round C it left right
  evaluate_node it ms (Terminal.or_c left right) n_evaluated _ =
      if n_evaluated == 0
      then then_again C it ms left
      else if n_evaluated == 1
      then or_c_round C it right
      else fails C it it.stack Error.could_not_evaluate
  evaluate_node it ms (Terminal.or_d left right) n_evaluated _ =
      if n_evaluated == 0
      then then_again C it ms left
      else if n_evaluated == 1
      then or_d_round C it right
      else fails C it it.stack Error.could_not_evaluate
  evaluate_node it ms (Terminal.or_i left right) _ _ = either_round C it left right
  evaluate_node it ms (Terminal.thresh k ss) n_evaluated n_satisfied =
      thresh_round C it ms k ss n_evaluated n_satisfied
  evaluate_node it ms (Terminal.multi_a t) n_evaluated n_satisfied =
      multi_a_round C it ms t n_evaluated n_satisfied
  evaluate_node it ms (Terminal.multi t) n_evaluated n_satisfied =
      multi_round C it ms t n_evaluated n_satisfied

  abbrev pub key_checked : Iter C → BitcoinKey C → Stack → Result (Error C) (KeySigPair C) → Round C
  key_checked it pk st (ok key_sig) =
      Round.returns (some (ok (SatisfiedConstraint.public_key key_sig)))
        (record it { public_key = none; stack = Element.satisfied ∷ st })
  key_checked it pk st (err _) = fails C it st (Error.pk_evaluation_error pk)

  abbrev pub key_round : Iter C → BitcoinKey C → Stack → Round C
  key_round it pk (Element.push sig ∷ st) =
      key_checked it pk st (verify_sersig C it.verify_sig pk sig)
  key_round it pk (_ ∷ st) = fails C it st Error.unexpected_stack_end
  key_round it pk [] = fails C it [] Error.unexpected_stack_end

  abbrev pub script_end : Iter C → Stack → Round C
  script_end it (Element.satisfied ∷ []) = Round.returns none (with_stack C it [])
  script_end it (_ ∷ st) = fails C it st Error.script_satisfaction_error
  script_end it [] = fails C it [] Error.script_satisfaction_error

  -- What follows the loop.
  unfoldable pub all_executed : Iter C → Option (BitcoinKey C) → Round C
  all_executed it (some pk) = key_round it pk it.stack
  all_executed it none = script_end it it.stack

  abbrev pub round_of : Iter C → List (NodeEvaluationState C) → Round C
  round_of it [] = all_executed it it.public_key
  round_of it (s ∷ rest) =
      evaluate_node (record it { state = rest }) s.node (node s.node) s.n_evaluated s.n_satisfied

  unfoldable pub iter_next_round : Iter C → Round C
  unfolding evaluate_node all_executed
  iter_next_round it = round_of it it.state

  -- What the calls of `next` return, one after the other, until the first `None`.
  pub data Outputs : Type 0 where
    item : Result (Error C) (SatisfiedConstraint C) → Outputs → Outputs
    ends : Outputs
    panics : Outputs
    out_of_fuel : Outputs

  abbrev pub continue_with : (Iter C → Outputs) → Round C → Outputs
  continue_with go (Round.again it) = go it
  continue_with go (Round.returns none it) = Outputs.ends
  continue_with go (Round.returns (some (ok c)) it) = Outputs.item (ok c) (go it)
  continue_with go (Round.returns (some (err e)) it) =
      Outputs.item (err e) (go (record it { has_errored = true }))
  continue_with go Round.panics = Outputs.panics

  -- `next` returns `None` after the first error, and else what `iter_next` does.
  unfoldable pub outputs : ℕ → Iter C → Outputs
  outputs zero it = Outputs.out_of_fuel
  outputs (suc fuel) it =
      if it.has_errored then Outputs.ends else continue_with (outputs fuel) (iter_next_round it)
