-- ===== src/Interpreter/Genuine/Recursion.antt =====
-- The constraints that a whole script yields in src/interpreter/mod.rs.
use rust_miniscript.Prelude.{
  ℕ, zero, suc, ◌+◌, ◌-◌, Bool, true, false, Option, none, some, List, [], ◌∷◌, length, nth, take,
  drop, ltb, ◌==◌, ok, err, if◌then◌else◌, ◌≡◌, refl,
}
use rust_miniscript.Primitives.Threshold.{Threshold}
use rust_miniscript.Primitives.Locktime.{Bitcoin}
use rust_miniscript.Miniscript.Ast.{Terminal, miniscript, nil, cons}
use rust_miniscript.Interpreter.Keys.{
  Crypto, BitcoinKey, HashLockType, SatisfiedConstraint, Error, to_pubkeyhash,
}
use rust_miniscript.Interpreter.Stack.{
  Element, Stack, Evaluation, evaluate_pk, evaluate_pkh, evaluate_multi, evaluate_after,
  evaluate_older, evaluate_sha256, evaluate_hash256, evaluate_hash160, evaluate_ripemd160,
}
use rust_miniscript.Interpreter.Iter.{Script, Node, Scripts}
use rust_miniscript.Interpreter.Arms.Multi.{nonsat}
use rust_miniscript.Interpreter.Machine.{template_is}
use rust_miniscript.Interpreter.Evaluator.{
  Run, Spend, and_then, boolean, satisfy, dissatisfy, verify_top, not_zero, unless_zero, and_top,
  replace_top, older_leaf, multi_a_key, multi_a_keys, multi_key, multi_at, multi_keys, multi_top,
  extra_zero, eval, eval_node, eval_subs,
}
use rust_miniscript.Interpreter.Genuine.{
  Genuine, AllGenuine, and_then-AllGenuine, boolean-AllGenuine, leaf-AllGenuine,
  evaluate_pk-Genuine, evaluate_multi-Genuine, evaluate_pkh-Genuine, evaluate_after-Genuine,
  evaluate_older-Genuine, evaluate_hash-Genuine,
}

module _ {B : Bitcoin} (C : Crypto B) (env : Spend C) where
  verify_top-AllGenuine : (st : Stack) → AllGenuine C env (verify_top C st)
  verify_top-AllGenuine [] = tt
  verify_top-AllGenuine (Element.satisfied ∷ st) = tt
  verify_top-AllGenuine (Element.dissatisfied ∷ st) = tt
  verify_top-AllGenuine (Element.push b ∷ st) = tt

  not_zero-AllGenuine : (st : Stack) → AllGenuine C env (not_zero C st)
  not_zero-AllGenuine [] = tt
  not_zero-AllGenuine (Element.satisfied ∷ st) = tt
  not_zero-AllGenuine (Element.dissatisfied ∷ st) = tt
  not_zero-AllGenuine (Element.push b ∷ st) = tt

  and_top-AllGenuine : (st : Stack) → AllGenuine C env (and_top C st)
  and_top-AllGenuine [] = tt
  and_top-AllGenuine (Element.satisfied ∷ st) = tt
  and_top-AllGenuine (Element.dissatisfied ∷ st) = tt
  and_top-AllGenuine (Element.push b ∷ st) = tt

  replace_top-AllGenuine : (e : Element) (st : Stack) → AllGenuine C env (replace_top C e st)
  replace_top-AllGenuine e [] = tt
  replace_top-AllGenuine e (x ∷ st) = tt

  unless_zero-AllGenuine :
      (f : Stack → Run C)
      → ((st : Stack) → AllGenuine C env (f st))
      → (st : Stack) → AllGenuine C env (unless_zero C f st)
  unless_zero-AllGenuine f p [] = tt
  unless_zero-AllGenuine f p (Element.satisfied ∷ st) = p (Element.satisfied ∷ st)
  unless_zero-AllGenuine f p (Element.dissatisfied ∷ st) = tt
  unless_zero-AllGenuine f p (Element.push b ∷ st) = p (Element.push b ∷ st)

  if-AllGenuine :
      (b : Bool) (x y : Run C)
      → (b ≡ true → AllGenuine C env x)
      → AllGenuine C env y
      → AllGenuine C env (if b then x else y)
  if-AllGenuine true x y p q = p refl
  if-AllGenuine false x y p q = q

  older-AllGenuine :
      (o : Option C.RelativeLockTime) (st : Stack) → AllGenuine C env (older_leaf C env o st)
  older-AllGenuine none st = tt
  older-AllGenuine (some n) st =
      leaf-AllGenuine C env (evaluate_older C n env.sequence st) (evaluate_older-Genuine C env n st)

  multi_a_key-AllGenuine :
      (sat : ℕ) (go : ℕ → Stack → Run C) (r : Evaluation C × Stack)
      → ((n : ℕ) (st : Stack) → AllGenuine C env (go n st))
      → ((c : SatisfiedConstraint C) (st : Stack) → r ≡ (some (ok c), st) → Genuine C env c)
      → AllGenuine C env (multi_a_key C env sat go r)
  multi_a_key-AllGenuine sat go (some (ok c), e ∷ st) p q = (q c (e ∷ st) refl, p (sat + 1) st)
  multi_a_key-AllGenuine sat go (some (ok c), []) p q = tt
  multi_a_key-AllGenuine sat go (none, e ∷ st) p q = p sat st
  multi_a_key-AllGenuine sat go (none, []) p q = tt
  multi_a_key-AllGenuine sat go (some (err e), st) p q = tt

  multi_a_keys-AllGenuine :
      (k : ℕ) (pks : List (BitcoinKey C)) (sat : ℕ) (st : Stack)
      → AllGenuine C env (multi_a_keys C env k pks sat st)
  unfolding multi_a_keys
  multi_a_keys-AllGenuine k [] sat st = tt
  multi_a_keys-AllGenuine k (pk ∷ pks) sat st =
      multi_a_key-AllGenuine sat (λ n mid. multi_a_keys C env k pks n mid)
        (evaluate_pk C env.verify_sig pk st) (multi_a_keys-AllGenuine k pks)
        (evaluate_pk-Genuine C env pk st)

  multi_key-AllGenuine :
      (sat : ℕ) (go : ℕ → Stack → Run C) (r : Evaluation C × Stack)
      → ((n : ℕ) (st : Stack) → AllGenuine C env (go n st))
      → ((c : SatisfiedConstraint C) (st : Stack) → r ≡ (some (ok c), st) → Genuine C env c)
      → AllGenuine C env (multi_key C env sat go r)
  multi_key-AllGenuine sat go (some (ok c), st) p q = (q c st refl, p (sat + 1) st)
  multi_key-AllGenuine sat go (none, st) p q = p sat st
  multi_key-AllGenuine sat go (some (err e), st) p q = tt

  multi_at-AllGenuine :
      (sat : ℕ) (go : ℕ → Stack → Run C) (st : Stack) (o : Option (BitcoinKey C))
      → ((n : ℕ) (mid : Stack) → AllGenuine C env (go n mid))
      → AllGenuine C env (multi_at C env sat go st o)
  multi_at-AllGenuine sat go st none p = tt
  multi_at-AllGenuine sat go st (some pk) p =
      multi_key-AllGenuine sat go (evaluate_multi C env.verify_sig pk st) p
        (evaluate_multi-Genuine C env pk st)

  extra_zero-AllGenuine : (st : Stack) → AllGenuine C env (extra_zero C env st)
  extra_zero-AllGenuine [] = tt
  extra_zero-AllGenuine (Element.satisfied ∷ st) = tt
  extra_zero-AllGenuine (Element.dissatisfied ∷ st) = tt
  extra_zero-AllGenuine (Element.push b ∷ st) = tt

  multi_keys-AllGenuine :
      (k : ℕ) (keys : List (BitcoinKey C)) (j sat : ℕ) (st : Stack)
      → AllGenuine C env (multi_keys C env k keys j sat st)
  unfolding multi_keys
  multi_keys-AllGenuine k keys zero sat st =
      if-AllGenuine (sat == k) (extra_zero C env st) (Run.fails Error.multi_sig_evaluation_error)
        (λ _. extra_zero-AllGenuine st) tt
  multi_keys-AllGenuine k keys (suc j) sat st =
      let go : ℕ → Stack → Run C = λ n mid. multi_keys C env k keys j n mid in
      if-AllGenuine (sat == k) (extra_zero C env st) (multi_at C env sat go st (nth j keys))
        (λ _. extra_zero-AllGenuine st)
        (multi_at-AllGenuine sat go st (nth j keys) (multi_keys-AllGenuine k keys j))

  multi_top-AllGenuine :
      (t : Threshold (BitcoinKey C)) (st : Stack) → AllGenuine C env (multi_top C env t st)
  multi_top-AllGenuine t [] = tt
  multi_top-AllGenuine t (Element.dissatisfied ∷ st) =
      let all : Stack = Element.dissatisfied ∷ st in
      if-AllGenuine (nonsat C (take (t.k + 1) all) == t.k + 1) (dissatisfy C (drop (t.k + 1) all))
        (Run.fails Error.missing_extra_zero_multi_sig) (λ _. tt) tt
  multi_top-AllGenuine t (Element.satisfied ∷ st) =
      let j = length t.inner - 1 in
      multi_at-AllGenuine 0 (λ n mid. multi_keys C env t.k t.inner j n mid) (Element.satisfied ∷ st)
        (nth j t.inner) (multi_keys-AllGenuine t.k t.inner j)
  multi_top-AllGenuine t (Element.push b ∷ st) =
      let j = length t.inner - 1 in
      multi_at-AllGenuine 0 (λ n mid. multi_keys C env t.k t.inner j n mid) (Element.push b ∷ st)
        (nth j t.inner) (multi_keys-AllGenuine t.k t.inner j)

  mutual
    unfolding eval evaluate_sha256 evaluate_hash256 evaluate_hash160 evaluate_ripemd160

    pub script-AllGenuine : (ms : Script C) (st : Stack) → AllGenuine C env (eval C env ms st)
    script-AllGenuine (miniscript n t e) st = node-AllGenuine n st

    node-AllGenuine : (n : Node C) (st : Stack) → AllGenuine C env (eval_node C env n st)
    node-AllGenuine Terminal.true st = tt
    node-AllGenuine Terminal.false st = tt
    node-AllGenuine (Terminal.pk_k pk) st =
        leaf-AllGenuine C env (evaluate_pk C env.verify_sig pk st) (evaluate_pk-Genuine C env pk st)
    node-AllGenuine (Terminal.pk_h pk) st =
        let h = to_pubkeyhash C pk env.sig_type in
        leaf-AllGenuine C env (evaluate_pkh C env.verify_sig h env.sig_type st)
          (evaluate_pkh-Genuine C env h st)
    node-AllGenuine (Terminal.raw_pk_h h) st =
        leaf-AllGenuine C env (evaluate_pkh C env.verify_sig h env.sig_type st)
          (evaluate_pkh-Genuine C env h st)
    node-AllGenuine (Terminal.tx_template h) st =
        if-AllGenuine (template_is C env.tx_template h)
          (Run.yields (SatisfiedConstraint.tx_template h) (Run.done st))
          (Run.fails Error.tx_template_hash_wrong) (λ e. (e, tt)) tt
    node-AllGenuine (Terminal.after n) st =
        leaf-AllGenuine C env (evaluate_after C n.inner env.lock_time st)
          (evaluate_after-Genuine C env n.inner st)
    node-AllGenuine (Terminal.older n) st = older-AllGenuine (C.to_relative_lock_time n.inner) st
    node-AllGenuine (Terminal.sha256 h) st =
        leaf-AllGenuine C env (evaluate_sha256 C h st)
          (evaluate_hash-Genuine C env (HashLockType.sha256 h) st)
    node-AllGenuine (Terminal.hash256 h) st =
        leaf-AllGenuine C env (evaluate_hash256 C h st)
          (evaluate_hash-Genuine C env (HashLockType.hash256 h) st)
    node-AllGenuine (Terminal.hash160 h) st =
        leaf-AllGenuine C env (evaluate_hash160 C h st)
          (evaluate_hash-Genuine C env (HashLockType.hash160 h) st)
    node-AllGenuine (Terminal.ripemd160 h) st =
        leaf-AllGenuine C env (evaluate_ripemd160 C h st)
          (evaluate_hash-Genuine C env (HashLockType.ripemd160 h) st)
    node-AllGenuine (Terminal.alt s) st = script-AllGenuine s st
    node-AllGenuine (Terminal.swap s) st = script-AllGenuine s st
    node-AllGenuine (Terminal.check s) st = script-AllGenuine s st
    node-AllGenuine (Terminal.inscribe_pre i s) st = script-AllGenuine s st
    node-AllGenuine (Terminal.inscribe_post i s) st = script-AllGenuine s st
    node-AllGenuine (Terminal.dup_if s) st =
        boolean-AllGenuine C env (dissatisfy C) (λ z. and_then C (eval C env s z) (satisfy C))
          (λ z. tt)
          (λ z.
            and_then-AllGenuine C env (eval C env s z) (satisfy C) (script-AllGenuine s z)
              (λ y. tt))
          st
    node-AllGenuine (Terminal.verify s) st =
        and_then-AllGenuine C env (eval C env s st) (verify_top C) (script-AllGenuine s st)
          verify_top-AllGenuine
    node-AllGenuine (Terminal.zero_not_equal s) st =
        and_then-AllGenuine C env (eval C env s st) (not_zero C) (script-AllGenuine s st)
          not_zero-AllGenuine
    node-AllGenuine (Terminal.non_zero s) st =
        unless_zero-AllGenuine (λ z. eval C env s z) (script-AllGenuine s) st
    node-AllGenuine (Terminal.and_v l r) st =
        and_then-AllGenuine C env (eval C env l st) (λ z. eval C env r z) (script-AllGenuine l st)
          (script-AllGenuine r)
    node-AllGenuine (Terminal.and_b l r) st =
        let no_case : Stack → Run C =
          λ z. and_then C (eval C env r z) (replace_top C Element.dissatisfied) in
        let yes_case : Stack → Run C = λ z. and_then C (eval C env r z) (and_top C) in
        and_then-AllGenuine C env (eval C env l st) (boolean C no_case yes_case)
          (script-AllGenuine l st)
          (boolean-AllGenuine C env no_case yes_case
            (λ z.
              and_then-AllGenuine C env (eval C env r z) (replace_top C Element.dissatisfied)
                (script-AllGenuine r z) (replace_top-AllGenuine Element.dissatisfied))
            (λ z.
              and_then-AllGenuine C env (eval C env r z) (and_top C) (script-AllGenuine r z)
                and_top-AllGenuine))
    node-AllGenuine (Terminal.or_b l r) st =
        let no_case : Stack → Run C = λ z. and_then C (eval C env r z) (not_zero C) in
        let yes_case : Stack → Run C =
          λ z. and_then C (eval C env r z) (replace_top C Element.satisfied) in
        and_then-AllGenuine C env (eval C env l st) (boolean C no_case yes_case)
          (script-AllGenuine l st)
          (boolean-AllGenuine C env no_case yes_case
            (λ z.
              and_then-AllGenuine C env (eval C env r z) (not_zero C) (script-AllGenuine r z)
                not_zero-AllGenuine)
            (λ z.
              and_then-AllGenuine C env (eval C env r z) (replace_top C Element.satisfied)
                (script-AllGenuine r z) (replace_top-AllGenuine Element.satisfied)))
    node-AllGenuine (Terminal.and_or x y z) st =
        and_then-AllGenuine C env (eval C env x st)
          (boolean C (λ w. eval C env z w) (λ w. eval C env y w)) (script-AllGenuine x st)
          (boolean-AllGenuine C env (λ w. eval C env z w) (λ w. eval C env y w)
            (script-AllGenuine z) (script-AllGenuine y))
    node-AllGenuine (Terminal.or_c l r) st =
        and_then-AllGenuine C env (eval C env l st) (boolean C (λ z. eval C env r z) Run.done)
          (script-AllGenuine l st)
          (boolean-AllGenuine C env (λ z. eval C env r z) Run.done (script-AllGenuine r) (λ z. tt))
    node-AllGenuine (Terminal.or_d l r) st =
        and_then-AllGenuine C env (eval C env l st) (boolean C (λ z. eval C env r z) (satisfy C))
          (script-AllGenuine l st)
          (boolean-AllGenuine C env (λ z. eval C env r z) (satisfy C) (script-AllGenuine r)
            (λ z. tt))
    node-AllGenuine (Terminal.or_i l r) st =
        boolean-AllGenuine C env (λ z. eval C env r z) (λ z. eval C env l z) (script-AllGenuine r)
          (script-AllGenuine l) st
    node-AllGenuine (Terminal.thresh k nil) st = tt
    node-AllGenuine (Terminal.thresh k (cons s ss)) st =
        and_then-AllGenuine C env (eval C env s st) (λ z. eval_subs C env k ss 0 z)
          (script-AllGenuine s st) (subs-AllGenuine ss k 0)
    node-AllGenuine (Terminal.multi_a t) st = multi_a_keys-AllGenuine t.k t.inner 0 st
    node-AllGenuine (Terminal.multi t) st =
        if-AllGenuine (ltb (length st) (t.k + 1))
          (Run.fails Error.insufficient_signatures_multi_sig) (multi_top C env t st) (λ _. tt)
          (multi_top-AllGenuine t st)

    subs-AllGenuine :
        (ss : Scripts C) (k sat : ℕ) (st : Stack) → AllGenuine C env (eval_subs C env k ss sat st)
    subs-AllGenuine nil k sat st =
        boolean-AllGenuine C env
          (λ z. Run.done ((if sat == k then Element.satisfied else Element.dissatisfied) ∷ z))
          (λ z. Run.done ((if sat == k - 1 then Element.satisfied else Element.dissatisfied) ∷ z))
          (λ z. tt) (λ z. tt) st
    subs-AllGenuine (cons s ss) k sat st =
        boolean-AllGenuine C env
          (λ z. and_then C (eval C env s z) (λ y. eval_subs C env k ss sat y))
          (λ z. and_then C (eval C env s z) (λ y. eval_subs C env k ss (sat + 1) y))
          (λ z.
            and_then-AllGenuine C env (eval C env s z) (λ y. eval_subs C env k ss sat y)
              (script-AllGenuine s z) (subs-AllGenuine ss k sat))
          (λ z.
            and_then-AllGenuine C env (eval C env s z) (λ y. eval_subs C env k ss (sat + 1) y)
              (script-AllGenuine s z) (subs-AllGenuine ss k (sat + 1)))
          st
