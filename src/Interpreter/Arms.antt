-- ===== src/Interpreter/Arms.antt =====
-- The arms of the loop of `iter_next` of src/interpreter/mod.rs for the wrappers, the conjunctions, the
-- disjunctions and the thresholds.
pub mod Multi
use rust_miniscript.Prelude.{
  ℕ, zero, suc, ◌+◌, ◌-◌, Option, none, some, [], ◌∷◌, ◌==◌, if◌then◌else◌,
}
use rust_miniscript.Primitives.Locktime.{Bitcoin}
use rust_miniscript.Miniscript.Ast.{nil, cons}
use rust_miniscript.Interpreter.Keys.{Crypto, Error}
use rust_miniscript.Interpreter.Stack.{Element, Stack}
use rust_miniscript.Interpreter.Iter.{
  Script, Scripts, Iter, Round, with_stack, push_evaluation_state, fails, pop_boolean, push_element,
}

module _ {B : Bitcoin} (C : Crypto B) where
  abbrev pub dup_if_round : Iter C → Script C → Script C → ℕ → Round C
  dup_if_round it ms sub n_evaluated =
      if n_evaluated == 0
      then pop_boolean C it (λ it'. Round.again (push_element C Element.dissatisfied it'))
          (λ it'.
            Round.again (push_evaluation_state C sub 0 0 (push_evaluation_state C ms 1 1 it')))
          it.stack
      else if n_evaluated == 1
      then Round.again (push_element C Element.satisfied it)
      else fails C it it.stack Error.could_not_evaluate

  -- A node that is evaluated once more after its first child.
  abbrev pub then_again : Iter C → Script C → Script C → Round C
  then_again it ms sub =
      Round.again (push_evaluation_state C sub 0 0 (push_evaluation_state C ms 1 0 it))

  abbrev pub verified : Iter C → Stack → Round C
  verified it (Element.satisfied ∷ st) = Round.again (with_stack C it st)
  verified it (_ ∷ st) = fails C it st Error.verify_failed
  verified it [] = fails C it [] Error.unexpected_stack_end

  abbrev pub not_equal : Iter C → Stack → Round C
  not_equal it (Element.dissatisfied ∷ st) =
      Round.again (with_stack C it (Element.dissatisfied ∷ st))
  not_equal it (_ ∷ st) = Round.again (with_stack C it (Element.satisfied ∷ st))
  not_equal it [] = fails C it [] Error.unexpected_stack_end

  abbrev pub non_zero_round : Iter C → Script C → Stack → Round C
  non_zero_round it sub (Element.dissatisfied ∷ st) = Round.again it
  non_zero_round it sub (_ ∷ st) = Round.again (push_evaluation_state C sub 0 0 it)
  non_zero_round it sub [] = fails C it [] Error.unexpected_stack_end

  -- The right child of `and_b` and `or_b`, after the left one.
  abbrev pub right_round : Iter C → Script C → Script C → Round C
  right_round it ms right =
      pop_boolean C it
        (λ it'.
          Round.again (push_evaluation_state C right 0 0 (push_evaluation_state C ms 2 0 it')))
        (λ it'.
          Round.again (push_evaluation_state C right 0 0 (push_evaluation_state C ms 2 1 it')))
        it.stack

  abbrev pub and_b_end : Iter C → ℕ → Stack → Round C
  and_b_end it n_satisfied (Element.satisfied ∷ st) = Round.again (
      with_stack C it ((if n_satisfied == 1 then Element.satisfied else Element.dissatisfied) ∷ st))
  and_b_end it n_satisfied (_ ∷ st) = Round.again (with_stack C it (Element.dissatisfied ∷ st))
  and_b_end it n_satisfied [] = fails C it [] Error.unexpected_stack_end

  abbrev pub or_b_end : Iter C → ℕ → Stack → Round C
  or_b_end it n_satisfied (Element.dissatisfied ∷ st) = Round.again (
      with_stack C it ((if n_satisfied == 0 then Element.dissatisfied else Element.satisfied) ∷ st))
  or_b_end it n_satisfied (_ ∷ st) = Round.again (with_stack C it (Element.satisfied ∷ st))
  or_b_end it n_satisfied [] = fails C it [] Error.unexpected_stack_end

  -- `and_or` after its first child, and `or_i`.
  abbrev pub either_round : Iter C → Script C → Script C → Round C
  either_round it left right =
      pop_boolean C it (λ it'. Round.again (push_evaluation_state C right 0 0 it'))
        (λ it'. Round.again (push_evaluation_state C left 0 0 it')) it.stack

  abbrev pub or_c_round : Iter C → Script C → Round C
  or_c_round it right =
      pop_boolean C it (λ it'. Round.again (push_evaluation_state C right 0 0 it')) Round.again
        it.stack

  abbrev pub or_d_round : Iter C → Script C → Round C
  or_d_round it right =
      pop_boolean C it (λ it'. Round.again (push_evaluation_state C right 0 0 it'))
        (λ it'. Round.again (push_element C Element.satisfied it')) it.stack

  abbrev pub sub_count : Scripts C → ℕ
  sub_count nil = 0
  sub_count (cons s ss) = suc (sub_count ss)

  abbrev pub nth_sub : ℕ → Scripts C → Option (Script C)
  nth_sub i nil = none
  nth_sub zero (cons s ss) = some s
  nth_sub (suc i) (cons s ss) = nth_sub i ss

  -- `thresh.data()[i]` is pushed, which is out of range where there is no such child.
  abbrev pub push_child : Option (Script C) → Iter C → Round C
  push_child none it = Round.panics
  push_child (some s) it = Round.again (push_evaluation_state C s 0 0 it)

  -- `k - 1` stops at 0, where the subtraction of the code would overflow; a `Threshold` has a `k` of at
  -- least 1.
  abbrev pub thresh_round : Iter C → Script C → ℕ → Scripts C → ℕ → ℕ → Round C
  thresh_round it ms k ss n_evaluated n_satisfied =
      if n_evaluated == 0
      then push_child (nth_sub 0 ss) (push_evaluation_state C ms 1 0 it)
      else if n_evaluated == sub_count ss
      then pop_boolean C it
          (λ it'. Round.again (
            push_element C (if n_satisfied == k then Element.satisfied else Element.dissatisfied)
              it'))
          (λ it'. Round.again (
            push_element C
              (if n_satisfied == k - 1 then Element.satisfied else Element.dissatisfied) it'))
          it.stack
      else pop_boolean C it
          (λ it'.
            push_child (nth_sub n_evaluated ss)
              (push_evaluation_state C ms (n_evaluated + 1) n_satisfied it'))
          (λ it'.
            push_child (nth_sub n_evaluated ss)
              (push_evaluation_state C ms (n_evaluated + 1) (n_satisfied + 1) it'))
          it.stack
