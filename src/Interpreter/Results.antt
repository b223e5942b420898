-- ===== src/Interpreter/Results.antt =====
-- The results of the iterators that `iter_custom` of src/interpreter/mod.rs creates.
use rust_miniscript.Prelude.{ℕ, ◌+◌, Bool, some, [], ◌∷◌, Result, ok, err, ◌≡◌, refl}
use rust_miniscript.Primitives.Locktime.{Bitcoin}
use rust_miniscript.Interpreter.Keys.{
  Crypto, BitcoinKey, KeySigPair, SatisfiedConstraint, Error, verify_sersig,
}
use rust_miniscript.Interpreter.Stack.{Element, Stack}
use rust_miniscript.Interpreter.Iter.{Iter}
use rust_miniscript.Interpreter.Machine.{
  Outputs, iter_next_round, all_executed, script_end, key_checked, key_round, outputs,
}
use rust_miniscript.Interpreter.Evaluator.{Spend, play, eval}
use rust_miniscript.Interpreter.Inner.{
  Inner, Interpreter, sig_type, key_of_inner, state_of_inner, iter_custom,
}
use rust_miniscript.Interpreter.Refine.Rounds.{at, Ends, Leads, after_yield, after_fail, after_none}
use rust_miniscript.Interpreter.Refine.Recursion.{script-Ends}

module _ {B : Bitcoin} (C : Crypto B) where
  -- What the interpreter knows of the transaction, with a signature check.
  abbrev pub spend : Interpreter C → (KeySigPair C → Bool) → Spend C
  spend i verify_sig = record {
    verify_sig = verify_sig;
    sequence = i.sequence;
    lock_time = i.lock_time;
    tx_template = i.tx_template;
    sig_type = sig_type C i.inner;
  }

  -- A script must leave a stack of exactly one satisfied element.
  abbrev pub clean : Stack → Outputs C
  clean (Element.satisfied ∷ []) = Outputs.ends
  clean _ = Outputs.item (err Error.script_satisfaction_error) Outputs.ends

  -- A key spend takes one signature, and what is left must be a clean stack.
  abbrev pub signed_by : BitcoinKey C → Stack → Result (Error C) (KeySigPair C) → Outputs C
  signed_by pk st (ok ks) =
      Outputs.item (ok (SatisfiedConstraint.public_key ks)) (clean (Element.satisfied ∷ st))
  signed_by pk st (err e) = Outputs.item (err (Error.pk_evaluation_error pk)) Outputs.ends

  abbrev pub key_spend : (KeySigPair C → Bool) → BitcoinKey C → Stack → Outputs C
  key_spend verify_sig pk (Element.push sig ∷ st) =
      signed_by pk st (verify_sersig C verify_sig pk sig)
  key_spend verify_sig pk _ = Outputs.item (err Error.unexpected_stack_end) Outputs.ends

  -- The results of a spend: of the recursive evaluation of a script, or of a key.
  abbrev pub results : Interpreter C → (KeySigPair C → Bool) → Inner C → Outputs C
  results i verify_sig (Inner.script ms _) = play C (eval C (spend i verify_sig) ms i.stack) clean
  results i verify_sig (Inner.public_key pk _) = key_spend verify_sig pk i.stack

  script_end-Leads : (jt : Iter C) (st : Stack) → Leads C (script_end C jt st) (clean st)
  script_end-Leads jt [] = after_fail C Error.script_satisfaction_error (record jt { stack = [] })
  script_end-Leads jt (Element.satisfied ∷ []) = after_none C (record jt { stack = [] })
  script_end-Leads jt (Element.satisfied ∷ x ∷ st) =
      after_fail C Error.script_satisfaction_error (record jt { stack = x ∷ st })
  script_end-Leads jt (Element.dissatisfied ∷ st) =
      after_fail C Error.script_satisfaction_error (record jt { stack = st })
  script_end-Leads jt (Element.push b ∷ st) =
      after_fail C Error.script_satisfaction_error (record jt { stack = st })

  clean-Ends : (env : Spend C) (st : Stack) → Ends C (at C env [] st) (clean st)
  unfolding iter_next_round all_executed
  clean-Ends env st = script_end-Leads (at C env [] st) st (at C env [] st) refl refl

  module _ (env : Spend C) (pk : BitcoinKey C) where
    -- The iterator of a key spend.
    abbrev keyed : Stack → Iter C
    keyed st = record (at C env [] st) { public_key = some pk }

    checked-Leads :
        (r : Result (Error C) (KeySigPair C)) (st old : Stack)
        → Leads C (key_checked C (keyed old) pk st r) (signed_by pk st r)
    checked-Leads (ok ks) st old =
        after_yield C (SatisfiedConstraint.public_key ks) (at C env [] (Element.satisfied ∷ st))
          (clean (Element.satisfied ∷ st)) (clean-Ends env (Element.satisfied ∷ st))
    checked-Leads (err e) st old = after_fail C (Error.pk_evaluation_error pk) (keyed st)

    key_round-Leads :
        (st old : Stack) → Leads C (key_round C (keyed old) pk st) (key_spend env.verify_sig pk st)
    key_round-Leads [] old = after_fail C Error.unexpected_stack_end (keyed [])
    key_round-Leads (Element.satisfied ∷ st) old =
        after_fail C Error.unexpected_stack_end (keyed st)
    key_round-Leads (Element.dissatisfied ∷ st) old =
        after_fail C Error.unexpected_stack_end (keyed st)
    key_round-Leads (Element.push sig ∷ st) old =
        checked-Leads (verify_sersig C env.verify_sig pk sig) st old

    key-Ends : (st : Stack) → Ends C (keyed st) (key_spend env.verify_sig pk st)
    unfolding iter_next_round all_executed
    key-Ends st = key_round-Leads st st (keyed st) refl refl

  -- The iterator with another script or key.
  abbrev iter_of : Interpreter C → (KeySigPair C → Bool) → Inner C → Iter C
  iter_of i verify_sig x = record (at C (spend i verify_sig) (state_of_inner C x) i.stack) {
    public_key = key_of_inner C x;
  }

  inner-Ends :
      (i : Interpreter C) (verify_sig : KeySigPair C → Bool) (x : Inner C)
      → Ends C (iter_of i verify_sig x) (results i verify_sig x)
  inner-Ends i verify_sig (Inner.script ms w) =
      script-Ends C (spend i verify_sig) ms [] clean (clean-Ends (spend i verify_sig)) i.stack
  inner-Ends i verify_sig (Inner.public_key key w) = key-Ends (spend i verify_sig) key i.stack

  -- Enough fuel, and any more, gives all results: the calls of `next` return exactly what the
  -- recursive evaluation of the script yields on the interpreter's stack, or what the check of the
  -- one key does, up to the first error; where there is none, they end with `None` if and only if
  -- the stack that is left is one satisfied element.
  pub iter_custom-results :
      (i : Interpreter C) (verify_sig : KeySigPair C → Bool)
      → (n : ℕ) × ((fuel : ℕ)
          → outputs C (n + fuel) (iter_custom C i verify_sig) ≡ results i verify_sig i.inner)
  unfolding iter_custom
  iter_custom-results i verify_sig = inner-Ends i verify_sig i.inner
