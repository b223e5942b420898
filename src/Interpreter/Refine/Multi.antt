-- ===== src/Interpreter/Refine/Multi.antt =====
-- The loops over the keys of `multi` and `multi_a` in src/interpreter/mod.rs.
use rust_miniscript.Prelude.{
  ℕ, zero, suc, ◌+◌, ◌-◌, ◌≤◌, true, false, Bool-cases, Option-cases, Option, none, some, List, [],
  ◌∷◌, length, nth, take, drop, ltb, ◌==◌, ok, err, if◌then◌else◌, inl, inr, ◌≡◌, refl, ap, ◌∙◌,
  arith,
}
use rust_miniscript.Primitives.Threshold.{Threshold}
use rust_miniscript.Primitives.Locktime.{Bitcoin}
use rust_miniscript.Types.Fragment.{Ty}
use rust_miniscript.Ext.Data.{ExtData}
use rust_miniscript.Miniscript.Ast.{Terminal, miniscript}
use rust_miniscript.Interpreter.Keys.{Crypto, BitcoinKey, Error}
use rust_miniscript.Interpreter.Stack.{Element, Stack, Evaluation, evaluate_pk, evaluate_multi}
use rust_miniscript.Interpreter.Iter.{Script, NodeEvaluationState}
use rust_miniscript.Interpreter.Arms.Multi.{
  multi_a_key, multi_key, multi_at, multi_first, multi_last, nonsat,
}
use rust_miniscript.Interpreter.Machine.{Outputs, iter_next_round, evaluate_node}
use rust_miniscript.Interpreter.Evaluator.{
  Run, Spend, play, multi_a_keys, multi_keys, multi_run, multi_top, extra_zero,
}
use rust_miniscript.Interpreter.Evaluator
use rust_miniscript.Interpreter.Refine.Rounds.{
  at, entered, Ends, Leads, Continues, after_again, after_yield, after_fail, after_panic,
}
use rust_miniscript.Interpreter.Refine.Indices.{drop_cons, drop_nil, nth_below}

module _ {B : Bitcoin} (C : Crypto B) (env : Spend C) (rest : List (NodeEvaluationState C))
    (k : Stack → Outputs C) (next : Continues C env rest k) (t : Threshold (BitcoinKey C)) (w : Ty)
    (x : ExtData) where
  abbrev multi_a_script : Script C
  multi_a_script = miniscript (Terminal.multi_a t) w x

  abbrev multi_script : Script C
  multi_script = miniscript (Terminal.multi t) w x

  multi_a_key-Leads :
      (i sat : ℕ) (go : ℕ → Stack → Run C)
      → ((m : ℕ) (st : Stack)
          → Ends C (at C env (entered C multi_a_script (i + 1) m ∷ rest) st) (play C (go m st) k))
      → (r : Evaluation C × Stack) (old : Stack)
      → Leads C
          (multi_a_key C (at C env rest old) multi_a_script i sat r)
          (play C (Evaluator.multi_a_key C env sat go r) k)
  multi_a_key-Leads i sat go ih (some (ok c), []) old =
      after_fail C Error.unexpected_stack_end
        (at C env (entered C multi_a_script (i + 1) (sat + 1) ∷ rest) [])
  multi_a_key-Leads i sat go ih (some (ok c), e ∷ st) old =
      after_yield C c (at C env (entered C multi_a_script (i + 1) (sat + 1) ∷ rest) st)
        (play C (go (sat + 1) st) k) (ih (sat + 1) st)
  multi_a_key-Leads i sat go ih (none, []) old =
      after_fail C Error.unexpected_stack_end
        (at C env (entered C multi_a_script (i + 1) sat ∷ rest) [])
  multi_a_key-Leads i sat go ih (none, e ∷ st) old =
      after_again C (at C env (entered C multi_a_script (i + 1) sat ∷ rest) st)
        (play C (go sat st) k) (ih sat st)
  multi_a_key-Leads i sat go ih (some (err e), st) old = after_fail C e (at C env rest st)

  multi_a_keys-Leads :
      (i sat : ℕ) (pks : List (BitcoinKey C))
      → drop i t.inner ≡ pks
      → i ≤ length t.inner
      → (st : Stack)
      → Leads C
          (evaluate_node C (at C env rest st) multi_a_script (Terminal.multi_a t) i sat)
          (play C (multi_a_keys C env t.k pks sat st) k)
  unfolding multi_a_keys iter_next_round evaluate_node
  multi_a_keys-Leads i sat [] h b st =
      let top = if sat == t.k then Element.satisfied else Element.dissatisfied in
      let last : (i == length t.inner) ≡ true = ground (arith, drop_nil i t.inner b h) in
      rw last (after_again C (at C env rest (top ∷ st)) (k (top ∷ st)) (next (top ∷ st)))
  multi_a_keys-Leads i sat (pk ∷ pks) h b st =
      let (found, others, below) = drop_cons i t.inner pk pks h in
      let more : (i == length t.inner) ≡ false = ground (arith, below) in
      let one : i + 1 ≡ suc i = omega arith in
      let within : i + 1 ≤ length t.inner = omega (arith, below) in
      rw (more, found)
        (multi_a_key-Leads i sat (λ m st'. multi_a_keys C env t.k pks m st')
          (λ m st'.
            multi_a_keys-Leads (i + 1) m pks (ap (λ j. drop j t.inner) one ∙ others) within st'
              (at C env (entered C multi_a_script (i + 1) m ∷ rest) st') refl refl)
          (evaluate_pk C env.verify_sig pk st) st)

  drop_none : (pks : List (BitcoinKey C)) → drop 0 pks ≡ pks
  drop_none [] = refl
  drop_none (pk ∷ pks) = refl

  pub multi_a_run-Leads :
      (st : Stack)
      → Leads C
          (evaluate_node C (at C env rest st) multi_a_script (Terminal.multi_a t) 0 0)
          (play C (multi_a_keys C env t.k t.inner 0 st) k)
  multi_a_run-Leads st = multi_a_keys-Leads 0 0 t.inner (drop_none t.inner) (omega arith) st

  multi_key-Leads :
      (i sat : ℕ) (go : ℕ → Stack → Run C)
      → ((m : ℕ) (st : Stack)
          → Ends C (at C env (entered C multi_script (i + 1) m ∷ rest) st) (play C (go m st) k))
      → (r : Evaluation C × Stack) (old : Stack)
      → Leads C
          (multi_key C (at C env rest old) multi_script i sat r)
          (play C (Evaluator.multi_key C env sat go r) k)
  multi_key-Leads i sat go ih (some (ok c), st) old =
      after_yield C c (at C env (entered C multi_script (i + 1) (sat + 1) ∷ rest) st)
        (play C (go (sat + 1) st) k) (ih (sat + 1) st)
  multi_key-Leads i sat go ih (none, st) old =
      after_again C (at C env (entered C multi_script (i + 1) sat ∷ rest) st) (play C (go sat st) k)
        (ih sat st)
  multi_key-Leads i sat go ih (some (err e), st) old = after_fail C e (at C env rest st)

  multi_at-Leads :
      (i sat : ℕ) (go : ℕ → Stack → Run C)
      → ((m : ℕ) (st : Stack)
          → Ends C (at C env (entered C multi_script (i + 1) m ∷ rest) st) (play C (go m st) k))
      → (o : Option (BitcoinKey C)) (st : Stack)
      → Leads C
          (multi_at C (at C env rest st) multi_script i sat o)
          (play C (Evaluator.multi_at C env sat go st o) k)
  multi_at-Leads i sat go ih none st = after_panic C
  multi_at-Leads i sat go ih (some pk) st =
      multi_key-Leads i sat go ih (evaluate_multi C env.verify_sig pk st) st

  multi_last-Leads :
      (st old : Stack)
      → Leads C (multi_last C (at C env rest old) st) (play C (extra_zero C env st) k)
  multi_last-Leads [] old = after_fail C Error.missing_extra_zero_multi_sig (at C env rest [])
  multi_last-Leads (Element.dissatisfied ∷ st) old =
      after_again C (at C env rest (Element.satisfied ∷ st)) (k (Element.satisfied ∷ st))
        (next (Element.satisfied ∷ st))
  multi_last-Leads (Element.satisfied ∷ st) old =
      after_fail C Error.missing_extra_zero_multi_sig (at C env rest st)
  multi_last-Leads (Element.push v ∷ st) old =
      after_fail C Error.missing_extra_zero_multi_sig (at C env rest st)

  pub multi_keys-Ends :
      (i j sat : ℕ)
      → i + j ≡ length t.inner
      → 1 ≤ i
      → (st : Stack)
      → Ends C
          (at C env (entered C multi_script i sat ∷ rest) st)
          (play C (multi_keys C env t.k t.inner j sat st) k)
  unfolding multi_keys iter_next_round evaluate_node
  multi_keys-Ends i zero sat h b st =
      let started : (i == 0) ≡ false = ground (arith, b) in
      let last : (i == length t.inner) ≡ true = ground (arith, h) in
      elim (Bool-cases (sat == t.k)) [
        | inl e ↦ rw e (
            multi_last-Leads st st (at C env (entered C multi_script i sat ∷ rest) st) refl
              (rw (started, e) refl))
        | inr e ↦ rw e (
            after_fail C Error.multi_sig_evaluation_error (at C env rest st)
              (at C env (entered C multi_script i sat ∷ rest) st) refl (rw (started, e, last) refl))
      ]
  multi_keys-Ends i (suc j) sat h b st =
      let started : (i == 0) ≡ false = ground (arith, b) in
      let more : (i == length t.inner) ≡ false = ground (arith, h) in
      let index : length t.inner - i - 1 ≡ j = omega (arith, h) in
      elim (Bool-cases (sat == t.k)) [
        | inl e ↦ rw e (
            multi_last-Leads st st (at C env (entered C multi_script i sat ∷ rest) st) refl
              (rw (started, e) refl))
        | inr e ↦ rw e (
            multi_at-Leads i sat (λ m st'. multi_keys C env t.k t.inner j m st')
              (λ m st'. multi_keys-Ends (i + 1) j m (omega (arith, h)) (omega arith) st')
              (nth j t.inner) st (at C env (entered C multi_script i sat ∷ rest) st) refl
              (rw (started, e, more, index) refl))
      ]

  first_key-Leads :
      (st : Stack)
      → Leads C
          (multi_at C (at C env rest st) multi_script 0 0 (nth (length t.inner - 1) t.inner))
          (play C
            (Evaluator.multi_at C env 0
              (λ m st'. multi_keys C env t.k t.inner (length t.inner - 1) m st')
              st
              (nth (length t.inner - 1) t.inner))
            k)
  first_key-Leads st = elim (Option-cases (nth (length t.inner - 1) t.inner)) [
    | inl e ↦ rw e (after_panic C)
    | inr (pk, e) ↦
        let below = nth_below (length t.inner - 1) t.inner pk e in
        multi_at-Leads 0 0 (λ m st'. multi_keys C env t.k t.inner (length t.inner - 1) m st')
          (λ m st'.
            multi_keys-Ends 1 (length t.inner - 1) m (omega (arith, below)) (omega arith) st')
          (nth (length t.inner - 1) t.inner) st
  ]

  multi_first-Leads :
      (st : Stack)
      → Leads C
          (multi_first C (at C env rest st) multi_script t st)
          (play C (multi_top C env t st) k)
  multi_first-Leads [] = after_fail C Error.unexpected_stack_end (at C env rest [])
  multi_first-Leads (Element.satisfied ∷ st) = first_key-Leads (Element.satisfied ∷ st)
  multi_first-Leads (Element.push v ∷ st) = first_key-Leads (Element.push v ∷ st)
  multi_first-Leads (Element.dissatisfied ∷ st) =
      let all : Stack = Element.dissatisfied ∷ st in
      let below = drop (t.k + 1) all in
      elim (Bool-cases (nonsat C (take (t.k + 1) all) == t.k + 1)) [
        | inl e ↦ rw e (
            after_again C (at C env rest (Element.dissatisfied ∷ below))
              (k (Element.dissatisfied ∷ below)) (next (Element.dissatisfied ∷ below)))
        | inr e ↦ rw e (after_fail C Error.missing_extra_zero_multi_sig (at C env rest below))
      ]

  pub multi_run-Leads :
      (st : Stack)
      → Leads C
          (evaluate_node C (at C env rest st) multi_script (Terminal.multi t) 0 0)
          (play C (multi_run C env t st) k)
  unfolding evaluate_node
  multi_run-Leads st = elim (Bool-cases (ltb (length st) (t.k + 1))) [
    | inl e ↦ rw e (after_fail C Error.insufficient_signatures_multi_sig (at C env rest st))
    | inr e ↦ rw e (multi_first-Leads st)
  ]
