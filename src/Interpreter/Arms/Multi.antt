-- ===== src/Interpreter/Arms/Multi.antt =====
-- The arms of the loop of `iter_next` of src/interpreter/mod.rs for `multi` and `multi_a`.
use rust_miniscript.Prelude.{
  ℕ, suc, ◌+◌, ◌-◌, Option, none, some, [], ◌∷◌, length, nth, take, drop, ltb, ◌==◌, ok, err,
  if◌then◌else◌,
}
use rust_miniscript.Primitives.Threshold.{Threshold}
use rust_miniscript.Primitives.Locktime.{Bitcoin}
use rust_miniscript.Interpreter.Keys.{Crypto, BitcoinKey, Error}
use rust_miniscript.Interpreter.Stack.{Element, Stack, Evaluation, evaluate_pk, evaluate_multi}
use rust_miniscript.Interpreter.Iter.{
  Script, Iter, Round, with_stack, push_evaluation_state, fails, push_element,
}

module _ {B : Bitcoin} (C : Crypto B) where
  -- The `match self.stack.pop()` of `multi_a`, which only drops the top.
  abbrev pub drop_top : Iter C → (Iter C → Round C) → Stack → Round C
  drop_top it next [] = fails C it [] Error.unexpected_stack_end
  drop_top it next (_ ∷ st) = next (with_stack C it st)

  abbrev pub multi_a_key : Iter C → Script C → ℕ → ℕ → Evaluation C × Stack → Round C
  multi_a_key it ms n_evaluated n_satisfied (some (ok x), st) =
      drop_top (push_evaluation_state C ms (n_evaluated + 1) (n_satisfied + 1) it)
        (Round.returns (some (ok x))) st
  multi_a_key it ms n_evaluated n_satisfied (none, st) =
      drop_top (push_evaluation_state C ms (n_evaluated + 1) n_satisfied it) Round.again st
  multi_a_key it ms n_evaluated n_satisfied (some (err e), st) = fails C it st e

  abbrev pub multi_a_at : Iter C → Script C → ℕ → ℕ → Option (BitcoinKey C) → Round C
  multi_a_at it ms n_evaluated n_satisfied none = Round.panics
  multi_a_at it ms n_evaluated n_satisfied (some pk) =
      multi_a_key it ms n_evaluated n_satisfied (evaluate_pk C it.verify_sig pk it.stack)

  abbrev pub multi_a_round : Iter C → Script C → Threshold (BitcoinKey C) → ℕ → ℕ → Round C
  multi_a_round it ms t n_evaluated n_satisfied =
      if n_evaluated == length t.inner
      then Round.again (
          push_element C (if n_satisfied == t.k then Element.satisfied else Element.dissatisfied)
            it)
      else multi_a_at it ms n_evaluated n_satisfied (nth n_evaluated t.inner)

  abbrev pub multi_key : Iter C → Script C → ℕ → ℕ → Evaluation C × Stack → Round C
  multi_key it ms n_evaluated n_satisfied (some (ok x), st) =
      Round.returns (some (ok x))
        (push_evaluation_state C ms (n_evaluated + 1) (n_satisfied + 1) (with_stack C it st))
  multi_key it ms n_evaluated n_satisfied (none, st) =
      Round.again (push_evaluation_state C ms (n_evaluated + 1) n_satisfied (with_stack C it st))
  multi_key it ms n_evaluated n_satisfied (some (err e), st) = fails C it st e

  abbrev pub multi_at : Iter C → Script C → ℕ → ℕ → Option (BitcoinKey C) → Round C
  multi_at it ms n_evaluated n_satisfied none = Round.panics
  multi_at it ms n_evaluated n_satisfied (some pk) =
      multi_key it ms n_evaluated n_satisfied (evaluate_multi C it.verify_sig pk it.stack)

  -- How many elements are empty.
  abbrev pub nonsat : Stack → ℕ
  nonsat [] = 0
  nonsat (Element.dissatisfied ∷ st) = suc (nonsat st)
  nonsat (_ ∷ st) = nonsat st

  -- Without any key, `n - 1` overflows in the code and there is no key at 0 here, a panic in both.
  -- `last` is empty: the top `k + 1` elements are split off, and all must be empty.
  abbrev pub multi_first : Iter C → Script C → Threshold (BitcoinKey C) → Stack → Round C
  multi_first it ms t (Element.dissatisfied ∷ st) =
      let all : Stack = Element.dissatisfied ∷ st in
      if nonsat (take (t.k + 1) all) == t.k + 1
      then Round.again (with_stack C it (Element.dissatisfied ∷ drop (t.k + 1) all))
      else fails C it (drop (t.k + 1) all) Error.missing_extra_zero_multi_sig
  multi_first it ms t (_ ∷ st) = multi_at it ms 0 0 (nth (length t.inner - 1) t.inner)
  multi_first it ms t [] = fails C it [] Error.unexpected_stack_end

  abbrev pub multi_last : Iter C → Stack → Round C
  multi_last it (Element.dissatisfied ∷ st) = Round.again (with_stack C it (Element.satisfied ∷ st))
  multi_last it (_ ∷ st) = fails C it st Error.missing_extra_zero_multi_sig
  multi_last it [] = fails C it [] Error.missing_extra_zero_multi_sig

  abbrev pub multi_round : Iter C → Script C → Threshold (BitcoinKey C) → ℕ → ℕ → Round C
  multi_round it ms t n_evaluated n_satisfied =
      if n_evaluated == 0
      then (if ltb (length it.stack) (t.k + 1)
          then fails C it it.stack Error.insufficient_signatures_multi_sig
          else multi_first it ms t it.stack)
      else if n_satisfied == t.k
      then multi_last it it.stack
      else if n_evaluated == length t.inner
      then fails C it it.stack Error.multi_sig_evaluation_error
      else multi_at it ms n_evaluated n_satisfied (nth (length t.inner - n_evaluated - 1) t.inner)
