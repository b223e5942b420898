-- ===== src/Interpreter/Settled/Recursion.antt =====
-- The iterator of src/interpreter/mod.rs on a whole script, up to its end.
use rust_miniscript.Prelude.{
  ℕ, ◌+◌, ◌-◌, Bool, true, [], ◌∷◌, length, ltb, ◌==◌, Result, ok, err, if◌then◌else◌, ◌≡◌, refl,
  ap, ◌∙◌, arith,
}
use rust_miniscript.Primitives.Locktime.{Bitcoin}
use rust_miniscript.Types.Fragment.{Ty}
use rust_miniscript.Ext.Data.{ExtData}
use rust_miniscript.Miniscript.Ast.{Terminal, miniscript, nil, cons}
use rust_miniscript.Miniscript.Build.{Everywhere, EveryChild, EverySub}
use rust_miniscript.Interpreter.Keys.{
  Crypto, BitcoinKey, KeySigPair, SatisfiedConstraint, Error, verify_sersig,
}
use rust_miniscript.Interpreter.Stack.{Element, Stack, evaluate_pk}
use rust_miniscript.Interpreter.Iter.{Script, Node, Scripts}
use rust_miniscript.Interpreter.Machine.{outputs, template_is}
use rust_miniscript.Interpreter.Evaluator.{
  Run, Spend, play, and_then, boolean, satisfy, dissatisfy, verify_top, not_zero, and_top,
  replace_top, multi_top, eval, eval_node, eval_subs,
}
use rust_miniscript.Interpreter.Inner.{Inner, Interpreter, iter_custom}
use rust_miniscript.Interpreter.Settled.{
  settled, Converts, Fits, Calm, and_then-Calm, boolean-Calm, leaf-Calm, verify_top-Calm,
  not_zero-Calm, and_top-Calm, replace_top-Calm, unless_zero-Calm, if-Calm, older-Calm,
  multi_a_keys-Calm, multi_top-Calm,
}
use rust_miniscript.Interpreter.Results.{
  spend, clean, signed_by, key_spend, results, iter_custom-results,
}
use rust_miniscript.Interpreter.Keys.{to_pubkeyhash}
use rust_miniscript.Interpreter.Stack.{
  evaluate_pkh, evaluate_after, evaluate_sha256, evaluate_hash256, evaluate_hash160,
  evaluate_ripemd160,
}

module _ {B : Bitcoin} (C : Crypto B) (env : Spend C) where
  mutual
    unfolding eval evaluate_sha256 evaluate_hash256 evaluate_hash160 evaluate_ripemd160

    pub script-Calm :
        (ms : Script C) → Everywhere (Converts C) ms → (st : Stack) → Calm C (eval C env ms st)
    script-Calm (miniscript n w e) fit st = node-Calm n w e fit.0 fit.1 st

    node-Calm :
        (n : Node C) (w : Ty) (e : ExtData)
        → Converts C n w e
        → EveryChild (Converts C) n
        → (st : Stack) → Calm C (eval_node C env n st)
    node-Calm Terminal.true w e c fit st = tt
    node-Calm Terminal.false w e c fit st = tt
    node-Calm (Terminal.pk_k pk) w e c fit st = leaf-Calm C (evaluate_pk C env.verify_sig pk st)
    node-Calm (Terminal.pk_h pk) w e c fit st =
        let h = to_pubkeyhash C pk env.sig_type in
        leaf-Calm C (evaluate_pkh C env.verify_sig h env.sig_type st)
    node-Calm (Terminal.raw_pk_h h) w e c fit st =
        leaf-Calm C (evaluate_pkh C env.verify_sig h env.sig_type st)
    node-Calm (Terminal.tx_template h) w e c fit st =
        if-Calm C (template_is C env.tx_template h)
          (Run.yields (SatisfiedConstraint.tx_template h) (Run.done st))
          (Run.fails Error.tx_template_hash_wrong) tt tt
    node-Calm (Terminal.after n) w e c fit st =
        leaf-Calm C (evaluate_after C n.inner env.lock_time st)
    node-Calm (Terminal.older n) w e c fit st =
        older-Calm C env (C.to_relative_lock_time n.inner) c.0 st c.1
    node-Calm (Terminal.sha256 h) w e c fit st = leaf-Calm C (evaluate_sha256 C h st)
    node-Calm (Terminal.hash256 h) w e c fit st = leaf-Calm C (evaluate_hash256 C h st)
    node-Calm (Terminal.hash160 h) w e c fit st = leaf-Calm C (evaluate_hash160 C h st)
    node-Calm (Terminal.ripemd160 h) w e c fit st = leaf-Calm C (evaluate_ripemd160 C h st)
    node-Calm (Terminal.alt s) w e c fit st = script-Calm s fit st
    node-Calm (Terminal.swap s) w e c fit st = script-Calm s fit st
    node-Calm (Terminal.check s) w e c fit st = script-Calm s fit st
    node-Calm (Terminal.inscribe_pre i s) w e c fit st = script-Calm s fit st
    node-Calm (Terminal.inscribe_post i s) w e c fit st = script-Calm s fit st
    node-Calm (Terminal.dup_if s) w e c fit st =
        boolean-Calm C (dissatisfy C) (λ z. and_then C (eval C env s z) (satisfy C)) (λ z. tt)
          (λ z. and_then-Calm C (eval C env s z) (satisfy C) (script-Calm s fit z) (λ y. tt)) st
    node-Calm (Terminal.verify s) w e c fit st =
        and_then-Calm C (eval C env s st) (verify_top C) (script-Calm s fit st) (verify_top-Calm C)
    node-Calm (Terminal.zero_not_equal s) w e c fit st =
        and_then-Calm C (eval C env s st) (not_zero C) (script-Calm s fit st) (not_zero-Calm C)
    node-Calm (Terminal.non_zero s) w e c fit st =
        unless_zero-Calm C (λ z. eval C env s z) (script-Calm s fit) st
    node-Calm (Terminal.and_v l r) w e c fit st =
        and_then-Calm C (eval C env l st) (λ z. eval C env r z) (script-Calm l fit.0 st)
          (script-Calm r fit.1)
    node-Calm (Terminal.and_b l r) w e c fit st =
        let no_case : Stack → Run C =
          λ z. and_then C (eval C env r z) (replace_top C Element.dissatisfied) in
        let yes_case : Stack → Run C = λ z. and_then C (eval C env r z) (and_top C) in
        and_then-Calm C (eval C env l st) (boolean C no_case yes_case) (script-Calm l fit.0 st) (
          boolean-Calm C no_case yes_case
            (λ z.
              and_then-Calm C (eval C env r z) (replace_top C Element.dissatisfied)
                (script-Calm r fit.1 z) (replace_top-Calm C Element.dissatisfied))
            (λ z.
              and_then-Calm C (eval C env r z) (and_top C) (script-Calm r fit.1 z)
                (and_top-Calm C)))
    node-Calm (Terminal.or_b l r) w e c fit st =
        let no_case : Stack → Run C = λ z. and_then C (eval C env r z) (not_zero C) in
        let yes_case : Stack → Run C =
          λ z. and_then C (eval C env r z) (replace_top C Element.satisfied) in
        and_then-Calm C (eval C env l st) (boolean C no_case yes_case) (script-Calm l fit.0 st) (
          boolean-Calm C no_case yes_case
            (λ z.
              and_then-Calm C (eval C env r z) (not_zero C) (script-Calm r fit.1 z)
                (not_zero-Calm C))
            (λ z.
              and_then-Calm C (eval C env r z) (replace_top C Element.satisfied)
                (script-Calm r fit.1 z) (replace_top-Calm C Element.satisfied)))
    node-Calm (Terminal.and_or x y z) w e c fit st =
        and_then-Calm C (eval C env x st) (boolean C (λ w. eval C env z w) (λ w. eval C env y w))
          (script-Calm x fit.0 st)
          (boolean-Calm C (λ w. eval C env z w) (λ w. eval C env y w) (script-Calm z fit.2)
            (script-Calm y fit.1))
    node-Calm (Terminal.or_c l r) w e c fit st =
        and_then-Calm C (eval C env l st) (boolean C (λ z. eval C env r z) Run.done)
          (script-Calm l fit.0 st)
          (boolean-Calm C (λ z. eval C env r z) Run.done (script-Calm r fit.1) (λ z. tt))
    node-Calm (Terminal.or_d l r) w e c fit st =
        and_then-Calm C (eval C env l st) (boolean C (λ z. eval C env r z) (satisfy C))
          (script-Calm l fit.0 st)
          (boolean-Calm C (λ z. eval C env r z) (satisfy C) (script-Calm r fit.1) (λ z. tt))
    node-Calm (Terminal.or_i l r) w e c fit st =
        boolean-Calm C (λ z. eval C env r z) (λ z. eval C env l z) (script-Calm r fit.1)
          (script-Calm l fit.0) st
    node-Calm (Terminal.thresh k nil) w e c fit st = ground (arith, fit.0, fit.1)
    node-Calm (Terminal.thresh k (cons s ss)) w e c fit st =
        and_then-Calm C (eval C env s st) (λ z. eval_subs C env k ss 0 z) (script-Calm s fit.2.0 st)
          (subs-Calm ss fit.2.1 k 0)
    node-Calm (Terminal.multi_a t) w e c fit st = multi_a_keys-Calm C env t.k t.inner 0 st
    node-Calm (Terminal.multi t) w e c fit st =
        if-Calm C (ltb (length st) (t.k + 1)) (Run.fails Error.insufficient_signatures_multi_sig)
          (multi_top C env t st) tt
          (multi_top-Calm C env t st (omega (arith, fit.positive, fit.within)))

    subs-Calm :
        (ss : Scripts C)
        → EverySub (Converts C) ss
        → (k sat : ℕ) (st : Stack) → Calm C (eval_subs C env k ss sat st)
    subs-Calm nil fit k sat st =
        boolean-Calm C
          (λ z. Run.done ((if sat == k then Element.satisfied else Element.dissatisfied) ∷ z))
          (λ z. Run.done ((if sat == k - 1 then Element.satisfied else Element.dissatisfied) ∷ z))
          (λ z. tt) (λ z. tt) st
    subs-Calm (cons s ss) fit k sat st =
        boolean-Calm C (λ z. and_then C (eval C env s z) (λ y. eval_subs C env k ss sat y))
          (λ z. and_then C (eval C env s z) (λ y. eval_subs C env k ss (sat + 1) y))
          (λ z.
            and_then-Calm C (eval C env s z) (λ y. eval_subs C env k ss sat y)
              (script-Calm s fit.0 z) (subs-Calm ss fit.1 k sat))
          (λ z.
            and_then-Calm C (eval C env s z) (λ y. eval_subs C env k ss (sat + 1) y)
              (script-Calm s fit.0 z) (subs-Calm ss fit.1 k (sat + 1)))
          st

  clean-settled : (st : Stack) → settled C (clean C st) ≡ true
  clean-settled [] = refl
  clean-settled (Element.satisfied ∷ []) = refl
  clean-settled (Element.satisfied ∷ x ∷ st) = refl
  clean-settled (Element.dissatisfied ∷ st) = refl
  clean-settled (Element.push b ∷ st) = refl

  play-settled : (r : Run C) → Calm C r → settled C (play C r (clean C)) ≡ true
  play-settled (Run.done st) h = clean-settled st
  play-settled (Run.yields c r) h = play-settled r h
  play-settled (Run.fails e) h = refl
  play-settled Run.panics h = absurd h

  signed_by-settled :
      (pk : BitcoinKey C) (st : Stack) (r : Result (Error C) (KeySigPair C))
      → settled C (signed_by C pk st r) ≡ true
  signed_by-settled pk st (ok ks) = clean-settled (Element.satisfied ∷ st)
  signed_by-settled pk st (err e) = refl

  key_spend-settled :
      (verify_sig : KeySigPair C → Bool) (pk : BitcoinKey C) (st : Stack)
      → settled C (key_spend C verify_sig pk st) ≡ true
  key_spend-settled verify_sig pk [] = refl
  key_spend-settled verify_sig pk (Element.satisfied ∷ st) = refl
  key_spend-settled verify_sig pk (Element.dissatisfied ∷ st) = refl
  key_spend-settled verify_sig pk (Element.push sig ∷ st) =
      signed_by-settled pk st (verify_sersig C verify_sig pk sig)

module _ {B : Bitcoin} (C : Crypto B) (i : Interpreter C) (verify_sig : KeySigPair C → Bool) where
  results-settled : (x : Inner C) → Fits C x → settled C (results C i verify_sig x) ≡ true
  results-settled (Inner.public_key key w) fit =
      key_spend-settled C (spend C i verify_sig) verify_sig key i.stack
  results-settled (Inner.script ms w) fit =
      play-settled C (spend C i verify_sig) (eval C (spend C i verify_sig) ms i.stack)
        (script-Calm C (spend C i verify_sig) ms fit i.stack)

  -- The iterator comes to an end: for a key, and for a script of any type with thresholds in range
  -- whose relative lock times the bitcoin crate converts, on enough fuel and on any more, the calls of
  -- `next` return constraints, then at most one error, and then `None`, on every witness stack and
  -- without a panic.
  pub iter_custom-settled :
      Fits C i.inner
      → (n : ℕ) × ((fuel : ℕ)
          → settled C (outputs C (n + fuel) (iter_custom C i verify_sig)) ≡ true)
  iter_custom-settled fit =
      let (n, f) = iter_custom-results C i verify_sig in
      (n, (λ fuel. ap (settled C) (f fuel) ∙ results-settled i.inner fit))
