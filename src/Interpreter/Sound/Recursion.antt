-- ===== src/Interpreter/Sound/Recursion.antt =====
-- What a typed script leaves on the stack in src/interpreter/mod.rs, against when it can be spent.
use rust_miniscript.Prelude.{
  ℕ, ◌+◌, All, Bool, true, false, ◌&&◌, ◌||◌, from_bool, leb, ok, ◌≡◌, refl, sym, subst,
}
use rust_miniscript.Primitives.Locktime.{Bitcoin}
use rust_miniscript.Types.Kinds.{Base}
use rust_miniscript.Types.Fragment
use rust_miniscript.Types.Fragment.{Ty}
use rust_miniscript.Miniscript.Ast.{Terminal, miniscript, nil, cons, ty, tys}
use rust_miniscript.Miniscript.Check.{type_check}
use rust_miniscript.Miniscript.Build.{Everywhere, EveryChild, EverySub}
use rust_miniscript.Policy.Semantic.{Policy}
use rust_miniscript.Policy.Lift.{contains_raw_pkh, node_has_raw, any_has_raw}
use rust_miniscript.Policy.Lift.Spending.{spendable, node_spendable, spendable_count, available}
use rust_miniscript.Interpreter.Keys.{Crypto, HashLockType, bitcoin_key}
use rust_miniscript.Interpreter.Stack.{
  Stack, evaluate_sha256, evaluate_hash256, evaluate_hash160, evaluate_ripemd160,
}
use rust_miniscript.Interpreter.Iter.{Script, Node, Scripts}
use rust_miniscript.Interpreter.Evaluator.{
  Run, Spend, and_then, satisfy, dissatisfy, eval, eval_node, eval_subs,
}
use rust_miniscript.Interpreter.Sound.Rules
use rust_miniscript.Interpreter.Sound.Bases.{base, is_boolean}
use rust_miniscript.Interpreter.Sound.Leaves.{
  Shown, Shown-map, Means, Leaves, and_then-Leaves, evaluate_pk-Shown, evaluate_pkh-Shown,
  evaluate_after-Shown, evaluate_hash-Shown,
}
use rust_miniscript.Interpreter.Sound.Keys.{counted, skipped, multi_a_keys-Shown, multi_run-Shown}
use rust_miniscript.Interpreter.Sound.Combinators.{
  or_false, Says, Says-Shown, boolean-Leaves, verify-Says, not_zero-Says, dup_if-Says,
  non_zero-Says, and_v-Says, and_b-Says, or_b-Says, or_c-Says, or_d-Says, or_i-Says, and_or-Says,
}
use rust_miniscript.Interpreter.Sound.Steps.{
  no_more, check_inscribe-base, older-Says, template-Says, thresh_end-Shown, rebase, becomes,
}

module _ {B : Bitcoin} (C : Crypto B) where
  -- Every node has the type that `type_check` computes, and its thresholds are in range.
  abbrev pub IsTyped : Script C → Type 0
  IsTyped = Everywhere (λ n t e. type_check n ≡ ok t)

module _ {B : Bitcoin} (C : Crypto B) (env : Spend C) (v : Policy B (bitcoin_key C) → Bool) where
  abbrev TypedChildren : Node C → Type 0
  TypedChildren = EveryChild (λ n t e. type_check n ≡ ok t)

  abbrev TypedSubs : Scripts C → Type 0
  TypedSubs = EverySub (λ n t e. type_check n ≡ ok t)

  abbrev Leaving : Run C → Stack → Type 0
  Leaving = Leaves C env.sig_type v

  mutual
    unfolding eval contains_raw_pkh spendable type_check evaluate_sha256 evaluate_hash256
        evaluate_hash160 evaluate_ripemd160

    pub script-Means :
        (ms : Script C)
        → IsTyped C ms
        → contains_raw_pkh ms ≡ false
        → Says C env v (eval C env ms) (base (ty ms)) (spendable v ms)
    script-Means (miniscript n t e) typed raw = node-Means n t typed.0 typed.1 raw

    -- A child, by the base that its type has to be of.
    node-Means :
        (n : Node C) (t : Ty)
        → type_check n ≡ ok t
        → TypedChildren n
        → node_has_raw n ≡ false
        → Says C env v (eval_node C env n) (base t) (node_spendable v n)
    node-Means Terminal.true t e typed raw =
        becomes C env v (satisfy C) Fragment.type_true t true e (λ x y p. subst (Shown true) p refl)
    node-Means Terminal.false t e typed raw =
        becomes C env v (dissatisfy C) Fragment.type_false t false e
          (λ x y p. subst (Shown false) p tt)
    node-Means (Terminal.pk_k pk) t e typed raw =
        becomes C env v (eval_node C env (Terminal.pk_k pk)) Fragment.pk_k t (v (Policy.key pk)) e
          (evaluate_pk-Shown C env.sig_type v env.verify_sig pk)
    node-Means (Terminal.pk_h pk) t e typed raw =
        becomes C env v (eval_node C env (Terminal.pk_h pk)) Fragment.pk_h t (v (Policy.key pk)) e
          (evaluate_pkh-Shown C env.sig_type v env.verify_sig pk)
    node-Means (Terminal.raw_pk_h h) t e typed raw = cc
    node-Means (Terminal.tx_template h) t e typed raw =
        becomes C env v (eval_node C env (Terminal.tx_template h)) Fragment.tx_template t
          (v (Policy.tx_template h)) e (template-Says C env v h)
    node-Means (Terminal.after n) t e typed raw =
        becomes C env v (eval_node C env (Terminal.after n)) Fragment.time t (v (Policy.after n)) e
          (evaluate_after-Shown C env.sig_type v n env.lock_time)
    node-Means (Terminal.older n) t e typed raw =
        becomes C env v (eval_node C env (Terminal.older n)) Fragment.time t (v (Policy.older n)) e
          (older-Says C env v n (C.to_relative_lock_time n.inner) refl)
    node-Means (Terminal.sha256 h) t e typed raw =
        becomes C env v (eval_node C env (Terminal.sha256 h)) Fragment.hash t (v (Policy.sha256 h))
          e
          (λ old st p.
            evaluate_hash-Shown C env.sig_type v C.sha256 (HashLockType.sha256 h) h old
              (v (Policy.sha256 h)) st (λ x g. g) p)
    node-Means (Terminal.hash256 h) t e typed raw =
        becomes C env v (eval_node C env (Terminal.hash256 h)) Fragment.hash t
          (v (Policy.hash256 h)) e
          (λ old st p.
            evaluate_hash-Shown C env.sig_type v C.hash256 (HashLockType.hash256 h) h old
              (v (Policy.hash256 h)) st (λ x g. g) p)
    node-Means (Terminal.hash160 h) t e typed raw =
        becomes C env v (eval_node C env (Terminal.hash160 h)) Fragment.hash t
          (v (Policy.hash160 h)) e
          (λ old st p.
            evaluate_hash-Shown C env.sig_type v C.hash160 (HashLockType.hash160 h) h old
              (v (Policy.hash160 h)) st (λ x g. g) p)
    node-Means (Terminal.ripemd160 h) t e typed raw =
        becomes C env v (eval_node C env (Terminal.ripemd160 h)) Fragment.hash t
          (v (Policy.ripemd160 h)) e
          (λ old st p.
            evaluate_hash-Shown C env.sig_type v C.ripemd160 (HashLockType.ripemd160 h) h old
              (v (Policy.ripemd160 h)) st (λ x g. g) p)
    node-Means (Terminal.multi m) t e typed raw =
        becomes C env v (eval_node C env (Terminal.multi m)) Fragment.multi t
          (leb m.k (available v m.inner)) e (multi_run-Shown C env v m)
    node-Means (Terminal.multi_a m) t e typed raw =
        becomes C env v (eval_node C env (Terminal.multi_a m)) Fragment.multi_a t
          (leb m.k (available v m.inner)) e
          (λ old st p.
            subst (λ n. Shown (leb m.k n) st) (no_more (available v m.inner))
              (multi_a_keys-Shown C env v m.k m.inner 0 old st p))
    node-Means (Terminal.inscribe_pre i s) t e typed raw =
        rebase C env v (eval C env s) (base (ty s)) (base t) (spendable v s)
          (check_inscribe-base B i (ty s) t e) (script-Means s typed raw)
    node-Means (Terminal.inscribe_post i s) t e typed raw =
        rebase C env v (eval C env s) (base (ty s)) (base t) (spendable v s)
          (check_inscribe-base B i (ty s) t e) (script-Means s typed raw)
    node-Means (Terminal.alt s) t e typed raw =
        let (from, to) = Rules.cast_alt-base (ty s) t e in
        rebase C env v (eval C env s) Base.w (base t) (spendable v s) (sym to) (
          rebase C env v (eval C env s) (base (ty s)) Base.b (spendable v s) from
            (script-Means s typed raw))
    node-Means (Terminal.swap s) t e typed raw =
        let (from, to) = Rules.cast_swap-base (ty s) t e in
        rebase C env v (eval C env s) Base.w (base t) (spendable v s) (sym to) (
          rebase C env v (eval C env s) (base (ty s)) Base.b (spendable v s) from
            (script-Means s typed raw))
    node-Means (Terminal.check s) t e typed raw =
        let (from, to) = Rules.cast_check-base (ty s) t e in
        rebase C env v (eval C env s) Base.b (base t) (spendable v s) (sym to) (
          rebase C env v (eval C env s) (base (ty s)) Base.k (spendable v s) from
            (script-Means s typed raw))
    node-Means (Terminal.dup_if s) t e typed raw =
        let (from, to) = Rules.cast_dupif-base (ty s) t e in
        rebase C env v (eval_node C env (Terminal.dup_if s)) Base.b (base t) (spendable v s)
          (sym to)
          (dup_if-Says C env v (eval C env s) (eval C env s) (spendable v s) (spendable v s) (
            rebase C env v (eval C env s) (base (ty s)) Base.v (spendable v s) from
              (script-Means s typed raw)))
    node-Means (Terminal.verify s) t e typed raw =
        let (from, to) = Rules.cast_verify-base (ty s) t e in
        rebase C env v (eval_node C env (Terminal.verify s)) Base.v (base t) (spendable v s)
          (sym to)
          (verify-Says C env v (eval C env s) (eval C env s) (spendable v s) (spendable v s) (
            rebase C env v (eval C env s) (base (ty s)) Base.b (spendable v s) from
              (script-Means s typed raw)))
    node-Means (Terminal.non_zero s) t e typed raw =
        let (from, to) = Rules.cast_nonzero-base (ty s) t e in
        rebase C env v (eval_node C env (Terminal.non_zero s)) Base.b (base t) (spendable v s)
          (sym to)
          (non_zero-Says C env v (eval C env s) (eval C env s) (spendable v s) (spendable v s) (
            rebase C env v (eval C env s) (base (ty s)) Base.b (spendable v s) from
              (script-Means s typed raw)))
    node-Means (Terminal.zero_not_equal s) t e typed raw =
        let (from, to) = Rules.cast_zeronotequal-base (ty s) t e in
        rebase C env v (eval_node C env (Terminal.zero_not_equal s)) Base.b (base t) (spendable v s)
          (sym to)
          (not_zero-Says C env v (eval C env s) (eval C env s) (spendable v s) (spendable v s) (
            rebase C env v (eval C env s) (base (ty s)) Base.b (spendable v s) from
              (script-Means s typed raw)))
    node-Means (Terminal.and_v l r) t e typed raw =
        let (left, right) = Rules.and_v-base (ty l) (ty r) t e in
        let raws = or_false (contains_raw_pkh l) (contains_raw_pkh r) raw in
        and_v-Says C env v (eval C env l) (eval C env r) (spendable v l) (spendable v r) (base t)
          (rebase C env v (eval C env l) (base (ty l)) Base.v (spendable v l) left
            (script-Means l typed.0 raws.0))
          (rebase C env v (eval C env r) (base (ty r)) (base t) (spendable v r) right
            (script-Means r typed.1 raws.1))
    node-Means (Terminal.and_b l r) t e typed raw =
        let (left, right, to) = Rules.and_b-base (ty l) (ty r) t e in
        let raws = or_false (contains_raw_pkh l) (contains_raw_pkh r) raw in
        rebase C env v (eval_node C env (Terminal.and_b l r)) Base.b (base t)
          (spendable v l && spendable v r) (sym to)
          (and_b-Says C env v (eval C env l) (eval C env r) (spendable v l) (spendable v r)
            (rebase C env v (eval C env l) (base (ty l)) Base.b (spendable v l) left
              (script-Means l typed.0 raws.0))
            (Says-Shown C env v (eval C env r) Base.w (spendable v r) refl (
              rebase C env v (eval C env r) (base (ty r)) Base.w (spendable v r) right
                (script-Means r typed.1 raws.1))))
    node-Means (Terminal.or_b l r) t e typed raw =
        let (left, right, to) = Rules.or_b-base (ty l) (ty r) t e in
        let raws = or_false (contains_raw_pkh l) (contains_raw_pkh r) raw in
        rebase C env v (eval_node C env (Terminal.or_b l r)) Base.b (base t)
          (spendable v l || spendable v r) (sym to)
          (or_b-Says C env v (eval C env l) (eval C env r) (spendable v l) (spendable v r)
            (rebase C env v (eval C env l) (base (ty l)) Base.b (spendable v l) left
              (script-Means l typed.0 raws.0))
            (Says-Shown C env v (eval C env r) Base.w (spendable v r) refl (
              rebase C env v (eval C env r) (base (ty r)) Base.w (spendable v r) right
                (script-Means r typed.1 raws.1))))
    node-Means (Terminal.or_c l r) t e typed raw =
        let (left, right, to) = Rules.or_c-base (ty l) (ty r) t e in
        let raws = or_false (contains_raw_pkh l) (contains_raw_pkh r) raw in
        rebase C env v (eval_node C env (Terminal.or_c l r)) Base.v (base t)
          (spendable v l || spendable v r) (sym to)
          (or_c-Says C env v (eval C env l) (eval C env r) (spendable v l) (spendable v r)
            (rebase C env v (eval C env l) (base (ty l)) Base.b (spendable v l) left
              (script-Means l typed.0 raws.0))
            (rebase C env v (eval C env r) (base (ty r)) Base.v (spendable v r) right
              (script-Means r typed.1 raws.1)))
    node-Means (Terminal.or_d l r) t e typed raw =
        let (left, right) = Rules.or_d-base (ty l) (ty r) t e in
        let raws = or_false (contains_raw_pkh l) (contains_raw_pkh r) raw in
        or_d-Says C env v (eval C env l) (eval C env r) (spendable v l) (spendable v r) (base t)
          (rebase C env v (eval C env l) (base (ty l)) Base.b (spendable v l) left
            (script-Means l typed.0 raws.0))
          (rebase C env v (eval C env r) (base (ty r)) (base t) (spendable v r) right
            (script-Means r typed.1 raws.1))
    node-Means (Terminal.or_i l r) t e typed raw =
        let (left, right) = Rules.or_i-base (ty l) (ty r) t e in
        let raws = or_false (contains_raw_pkh l) (contains_raw_pkh r) raw in
        or_i-Says C env v (eval C env l) (eval C env r) (spendable v l) (spendable v r) (base t)
          (rebase C env v (eval C env l) (base (ty l)) (base t) (spendable v l) left
            (script-Means l typed.0 raws.0))
          (rebase C env v (eval C env r) (base (ty r)) (base t) (spendable v r) right
            (script-Means r typed.1 raws.1))
    node-Means (Terminal.and_or x y z) t e typed raw =
        let (first, left, right) = Rules.and_or-base (ty x) (ty y) (ty z) t e in
        let raws = or_false (contains_raw_pkh x || contains_raw_pkh y) (contains_raw_pkh z) raw in
        let both = or_false (contains_raw_pkh x) (contains_raw_pkh y) raws.0 in
        and_or-Says C env v (eval C env y) (eval C env z) (spendable v y) (spendable v z)
          (eval C env x) (spendable v x) (base t)
          (rebase C env v (eval C env x) (base (ty x)) Base.b (spendable v x) first
            (script-Means x typed.0 both.0))
          (rebase C env v (eval C env y) (base (ty y)) (base t) (spendable v y) left
            (script-Means y typed.1 both.1))
          (rebase C env v (eval C env z) (base (ty z)) (base t) (spendable v z) right
            (script-Means z typed.2 raws.1))
    node-Means (Terminal.thresh k nil) t e typed raw = λ old st h. absurd h
    node-Means (Terminal.thresh k (cons s ss)) t e typed raw = λ old st h.
        let (bools, to) = Rules.threshold-base k (tys (cons s ss)) t e in
        let raws = or_false (contains_raw_pkh s) (any_has_raw ss) raw in
        let next : Stack → Run C = λ mid. eval_subs C env k ss 0 mid in
        let (mid, first, second) = and_then-Leaves C env.sig_type v (eval C env s old) next st h in
        let shown =
          Says-Shown C env v (eval C env s) (base (ty s)) (spendable v s) bools.0
            (script-Means s typed.2.0 raws.0) old mid first in
        subst (λ x. Means x (leb k (spendable_count v (cons s ss))) st) (sym to)
          (subst (λ n. Shown (leb k n) st) (no_more (spendable_count v (cons s ss)))
            (subs-Shown ss typed.2.1 bools.1 raws.1 k 0 (spendable v s) mid st shown second))

    subs-Shown :
        (ss : Scripts C)
        → TypedSubs ss
        → All (λ u. is_boolean (base u) ≡ true) (tys ss)
        → any_has_raw ss ≡ false
        → (k sat : ℕ) (a : Bool) (old st : Stack) → Shown a old
        → Leaving (eval_subs C env k ss sat old) st
        → Shown (leb k (sat + (from_bool a + spendable_count v ss))) st
    subs-Shown nil typed bools raw k sat a old st s h = thresh_end-Shown C env v k sat a old st s h
    subs-Shown (cons x ss) typed bools raw k sat a old st s h =
        let raws = or_false (contains_raw_pkh x) (any_has_raw ss) raw in
        let n = from_bool (spendable v x) + spendable_count v ss in
        let after : ℕ → Stack → Run C = λ m z. eval_subs C env k ss m z in
        let child : (m : ℕ) (rest : Stack)
            → Leaving (and_then C (eval C env x rest) (after m)) st
            → Shown (leb k (m + n)) st =
          λ m rest p.
            let (mid, first, second) =
              and_then-Leaves C env.sig_type v (eval C env x rest) (after m) st p in
            subs-Shown ss typed.1 bools.1 raws.1 k m (spendable v x) mid st
              (Says-Shown C env v (eval C env x) (base (ty x)) (spendable v x) bools.0
                (script-Means x typed.0 raws.0) rest mid first)
              second in
        boolean-Leaves C env v (λ rest. and_then C (eval C env x rest) (after sat))
          (λ rest. and_then C (eval C env x rest) (after (sat + 1))) old st a s
          (λ rest p.
            Shown-map (leb k (sat + n)) (leb k (sat + (from_bool a + n))) (skipped a k sat n) st
              (child sat rest p))
          (λ t rest p.
            Shown-map (leb k (sat + 1 + n)) (leb k (sat + (from_bool a + n))) (counted a k sat n t)
              st (child (sat + 1) rest p))
          h
