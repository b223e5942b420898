-- ===== src/Interpreter/Refine/Recursion.antt =====
-- `Iter` of src/interpreter/mod.rs on a whole fragment, against the recursive evaluation.
use rust_miniscript.Prelude.{
  ℕ, suc, ◌+◌, ◌-◌, ◌≤◌, true, false, some, List, [], ◌∷◌, ◌==◌, if◌then◌else◌, ◌≡◌, refl, ap, ◌∙◌,
  arith,
}
use rust_miniscript.Primitives.Locktime.{Bitcoin}
use rust_miniscript.Types.Fragment.{Ty}
use rust_miniscript.Ext.Data.{ExtData}
use rust_miniscript.Miniscript.Ast.{Terminal, miniscript, nil, cons}
use rust_miniscript.Interpreter.Keys.{Crypto, Error, to_pubkeyhash}
use rust_miniscript.Interpreter.Stack.{
  Element, Stack, evaluate_pk, evaluate_pkh, evaluate_after, evaluate_sha256, evaluate_hash256,
  evaluate_hash160, evaluate_ripemd160,
}
use rust_miniscript.Interpreter.Iter.{
  Script, Node, Scripts, NodeEvaluationState, Round, push_evaluation_state, push_element,
}
use rust_miniscript.Interpreter.Arms.{push_child, thresh_round, sub_count}
use rust_miniscript.Interpreter.Machine.{Outputs, iter_next_round, evaluate_node}
use rust_miniscript.Interpreter.Evaluator.{
  Run, Spend, play, and_then, boolean, satisfy, dissatisfy, verify_top, not_zero, and_top,
  replace_top, thresh_end, eval, eval_node, eval_subs,
}
use rust_miniscript.Interpreter.Refine.Rounds.{
  at, fresh, entered, Leads, Continues, after_fail, after_panic, leaf-Leads, boolean-Leads,
}
use rust_miniscript.Interpreter.Refine.Indices.{
  drop_subs, drop_subs_cons, drop_subs_none, drop_subs_nil,
}
use rust_miniscript.Interpreter.Refine.Multi.{multi_a_run-Leads, multi_run-Leads}
use rust_miniscript.Interpreter.Refine.Nodes.{
  EndsFor, again-Leads, verified-Leads, not_equal-Leads, and_b_end-Leads, and_b_end-Leads_failed,
  or_b_end-Leads, or_b_end-Leads_passed, older-Leads, template-Leads, child-Leads, only-Leads,
}

module _ {B : Bitcoin} (C : Crypto B) (env : Spend C) where
  -- A threshold after its last child.
  thresh_end-Leads :
      (rest : List (NodeEvaluationState C)) (k : Stack → Outputs C)
      → Continues C env rest k
      → (m : ℕ) (sat : ℕ) (ms : Script C) (ss : Scripts C) (i : ℕ) (st : Stack) → (i == 0) ≡ false
      → (i == sub_count C ss) ≡ true
      → Leads C
          (thresh_round C (at C env rest st) ms m ss i sat)
          (play C (thresh_end C env m sat st) k)
  thresh_end-Leads rest k next m sat ms ss i st started last =
      rw (started, last)
        (boolean-Leads C env rest k
          (λ it.
            Round.again
              (push_element C (if sat == m then Element.satisfied else Element.dissatisfied) it))
          (λ it.
            Round.again (
              push_element C (if sat == m - 1 then Element.satisfied else Element.dissatisfied) it))
          (λ st'. Run.done ((if sat == m then Element.satisfied else Element.dissatisfied) ∷ st'))
          (λ st'.
            Run.done ((if sat == m - 1 then Element.satisfied else Element.dissatisfied) ∷ st'))
          (λ st'.
            again-Leads C env rest k next
              ((if sat == m then Element.satisfied else Element.dissatisfied) ∷ st'))
          (λ st'.
            again-Leads C env rest k next
              ((if sat == m - 1 then Element.satisfied else Element.dissatisfied) ∷ st'))
          st st)

  mutual
    unfolding eval iter_next_round evaluate_node

    pub script-Ends : (ms : Script C) → EndsFor C env (eval C env ms) (fresh C ms)
    script-Ends (miniscript n w e) rest k next st =
        node-Leads n w e rest k next st (at C env (fresh C (miniscript n w e) ∷ rest) st) refl refl

    node-Leads :
        (n : Node C) (w : Ty) (e : ExtData) (rest : List (NodeEvaluationState C))
        (k : Stack → Outputs C)
        → Continues C env rest k
        → (st : Stack)
        → Leads C
            (evaluate_node C (at C env rest st) (miniscript n w e) n 0 0)
            (play C (eval_node C env n st) k)
    node-Leads Terminal.true w e rest k next st =
        again-Leads C env rest k next (Element.satisfied ∷ st)
    node-Leads Terminal.false w e rest k next st =
        again-Leads C env rest k next (Element.dissatisfied ∷ st)
    node-Leads (Terminal.pk_k pk) w e rest k next st =
        leaf-Leads C env rest k next (evaluate_pk C env.verify_sig pk st) st
    node-Leads (Terminal.pk_h pk) w e rest k next st =
        leaf-Leads C env rest k next
          (evaluate_pkh C env.verify_sig (to_pubkeyhash C pk env.sig_type) env.sig_type st) st
    node-Leads (Terminal.raw_pk_h h) w e rest k next st =
        leaf-Leads C env rest k next (evaluate_pkh C env.verify_sig h env.sig_type st) st
    node-Leads (Terminal.tx_template h) w e rest k next st =
        template-Leads C env rest k next h st e w
    node-Leads (Terminal.after n) w e rest k next st =
        leaf-Leads C env rest k next (evaluate_after C n.inner env.lock_time st) st
    node-Leads (Terminal.older n) w e rest k next st =
        older-Leads C env rest k next (C.to_relative_lock_time n.inner) st
    node-Leads (Terminal.sha256 h) w e rest k next st =
        leaf-Leads C env rest k next (evaluate_sha256 C h st) st
    node-Leads (Terminal.hash256 h) w e rest k next st =
        leaf-Leads C env rest k next (evaluate_hash256 C h st) st
    node-Leads (Terminal.hash160 h) w e rest k next st =
        leaf-Leads C env rest k next (evaluate_hash160 C h st) st
    node-Leads (Terminal.ripemd160 h) w e rest k next st =
        leaf-Leads C env rest k next (evaluate_ripemd160 C h st) st
    node-Leads (Terminal.alt s) w e rest k next st =
        only-Leads C env s rest k (script-Ends s) next st
    node-Leads (Terminal.swap s) w e rest k next st =
        only-Leads C env s rest k (script-Ends s) next st
    node-Leads (Terminal.check s) w e rest k next st =
        only-Leads C env s rest k (script-Ends s) next st
    node-Leads (Terminal.inscribe_pre i s) w e rest k next st =
        only-Leads C env s rest k (script-Ends s) next st
    node-Leads (Terminal.inscribe_post i s) w e rest k next st =
        only-Leads C env s rest k (script-Ends s) next st
    node-Leads (Terminal.dup_if s) w e rest k next st =
        let ms = miniscript (Terminal.dup_if s) w e in
        boolean-Leads C env rest k (λ it. Round.again (push_element C Element.dissatisfied it))
          (λ it. Round.again (push_evaluation_state C s 0 0 (push_evaluation_state C ms 1 1 it)))
          (dissatisfy C) (λ st'. and_then C (eval C env s st') (satisfy C))
          (λ st'. again-Leads C env rest k next (Element.dissatisfied ∷ st'))
          (λ st'.
            child-Leads C env s (satisfy C) (entered C ms 1 1 ∷ rest) k (script-Ends s)
              (λ st''.
                again-Leads C env rest k next (Element.satisfied ∷ st'')
                  (at C env (entered C ms 1 1 ∷ rest) st'') refl refl)
              st')
          st st
    node-Leads (Terminal.verify s) w e rest k next st =
        let ms = miniscript (Terminal.verify s) w e in
        child-Leads C env s (verify_top C) (entered C ms 1 0 ∷ rest) k (script-Ends s)
          (λ st'.
            verified-Leads C env rest k next st' st' (at C env (entered C ms 1 0 ∷ rest) st') refl
              refl)
          st
    node-Leads (Terminal.zero_not_equal s) w e rest k next st =
        let ms = miniscript (Terminal.zero_not_equal s) w e in
        child-Leads C env s (not_zero C) (entered C ms 1 0 ∷ rest) k (script-Ends s)
          (λ st'.
            not_equal-Leads C env rest k next st' st' (at C env (entered C ms 1 0 ∷ rest) st') refl
              refl)
          st
    node-Leads (Terminal.non_zero s) w e rest k next [] =
        after_fail C Error.unexpected_stack_end (at C env rest [])
    node-Leads (Terminal.non_zero s) w e rest k next (Element.dissatisfied ∷ st) =
        again-Leads C env rest k next (Element.dissatisfied ∷ st)
    node-Leads (Terminal.non_zero s) w e rest k next (Element.satisfied ∷ st) =
        only-Leads C env s rest k (script-Ends s) next (Element.satisfied ∷ st)
    node-Leads (Terminal.non_zero s) w e rest k next (Element.push v ∷ st) =
        only-Leads C env s rest k (script-Ends s) next (Element.push v ∷ st)
    node-Leads (Terminal.and_v l r) w e rest k next st =
        child-Leads C env l (λ st'. eval C env r st') (fresh C r ∷ rest) k (script-Ends l)
          (script-Ends r rest k next) st
    node-Leads (Terminal.and_b l r) w e rest k next st =
        let ms = miniscript (Terminal.and_b l r) w e in
        child-Leads C env l
          (boolean C (λ st'. and_then C (eval C env r st') (replace_top C Element.dissatisfied))
            (λ st'. and_then C (eval C env r st') (and_top C)))
          (entered C ms 1 0 ∷ rest) k (script-Ends l)
          (λ st'.
            boolean-Leads C env rest k
              (λ it.
                Round.again (push_evaluation_state C r 0 0 (push_evaluation_state C ms 2 0 it)))
              (λ it.
                Round.again (push_evaluation_state C r 0 0 (push_evaluation_state C ms 2 1 it)))
              (λ st''. and_then C (eval C env r st'') (replace_top C Element.dissatisfied))
              (λ st''. and_then C (eval C env r st'') (and_top C))
              (child-Leads C env r (replace_top C Element.dissatisfied) (entered C ms 2 0 ∷ rest) k
                (script-Ends r)
                (λ z.
                  and_b_end-Leads_failed C env rest k next z z
                    (at C env (entered C ms 2 0 ∷ rest) z) refl refl))
              (child-Leads C env r (and_top C) (entered C ms 2 1 ∷ rest) k (script-Ends r) (λ z.
                and_b_end-Leads C env rest k next z z (at C env (entered C ms 2 1 ∷ rest) z) refl
                  refl))
              st' st' (at C env (entered C ms 1 0 ∷ rest) st') refl refl)
          st
    node-Leads (Terminal.or_b l r) w e rest k next st =
        let ms = miniscript (Terminal.or_b l r) w e in
        child-Leads C env l
          (boolean C (λ st'. and_then C (eval C env r st') (not_zero C))
            (λ st'. and_then C (eval C env r st') (replace_top C Element.satisfied)))
          (entered C ms 1 0 ∷ rest) k (script-Ends l)
          (λ st'.
            boolean-Leads C env rest k
              (λ it.
                Round.again (push_evaluation_state C r 0 0 (push_evaluation_state C ms 2 0 it)))
              (λ it.
                Round.again (push_evaluation_state C r 0 0 (push_evaluation_state C ms 2 1 it)))
              (λ st''. and_then C (eval C env r st'') (not_zero C))
              (λ st''. and_then C (eval C env r st'') (replace_top C Element.satisfied))
              (child-Leads C env r (not_zero C) (entered C ms 2 0 ∷ rest) k (script-Ends r) (λ z.
                or_b_end-Leads C env rest k next z z (at C env (entered C ms 2 0 ∷ rest) z) refl
                  refl))
              (child-Leads C env r (replace_top C Element.satisfied) (entered C ms 2 1 ∷ rest) k
                (script-Ends r)
                (λ z.
                  or_b_end-Leads_passed C env rest k next z z (at C env (entered C ms 2 1 ∷ rest) z)
                    refl refl))
              st' st' (at C env (entered C ms 1 0 ∷ rest) st') refl refl)
          st
    node-Leads (Terminal.and_or x y z) w e rest k next st =
        let ms = miniscript (Terminal.and_or x y z) w e in
        child-Leads C env x (boolean C (λ st'. eval C env z st') (λ st'. eval C env y st'))
          (entered C ms 1 0 ∷ rest) k (script-Ends x)
          (λ st'.
            boolean-Leads C env rest k (λ it. Round.again (push_evaluation_state C z 0 0 it))
              (λ it. Round.again (push_evaluation_state C y 0 0 it)) (λ st''. eval C env z st'')
              (λ st''. eval C env y st'') (only-Leads C env z rest k (script-Ends z) next)
              (only-Leads C env y rest k (script-Ends y) next) st' st'
              (at C env (entered C ms 1 0 ∷ rest) st') refl refl)
          st
    node-Leads (Terminal.or_c l r) w e rest k next st =
        let ms = miniscript (Terminal.or_c l r) w e in
        child-Leads C env l (boolean C (λ st'. eval C env r st') Run.done) (entered C ms 1 0 ∷ rest)
          k (script-Ends l)
          (λ st'.
            boolean-Leads C env rest k (λ it. Round.again (push_evaluation_state C r 0 0 it))
              Round.again (λ st''. eval C env r st'') Run.done
              (only-Leads C env r rest k (script-Ends r) next) (again-Leads C env rest k next) st'
              st' (at C env (entered C ms 1 0 ∷ rest) st') refl refl)
          st
    node-Leads (Terminal.or_d l r) w e rest k next st =
        let ms = miniscript (Terminal.or_d l r) w e in
        child-Leads C env l (boolean C (λ st'. eval C env r st') (satisfy C))
          (entered C ms 1 0 ∷ rest) k (script-Ends l)
          (λ st'.
            boolean-Leads C env rest k (λ it. Round.again (push_evaluation_state C r 0 0 it))
              (λ it. Round.again (push_element C Element.satisfied it)) (λ st''. eval C env r st'')
              (satisfy C) (only-Leads C env r rest k (script-Ends r) next)
              (λ z. again-Leads C env rest k next (Element.satisfied ∷ z)) st' st'
              (at C env (entered C ms 1 0 ∷ rest) st') refl refl)
          st
    node-Leads (Terminal.or_i l r) w e rest k next st =
        boolean-Leads C env rest k (λ it. Round.again (push_evaluation_state C r 0 0 it))
          (λ it. Round.again (push_evaluation_state C l 0 0 it)) (λ st'. eval C env r st')
          (λ st'. eval C env l st') (only-Leads C env r rest k (script-Ends r) next)
          (only-Leads C env l rest k (script-Ends l) next) st st
    node-Leads (Terminal.thresh m nil) w e rest k next st = after_panic C
    node-Leads (Terminal.thresh m (cons s ss)) w e rest k next st =
        let ms = miniscript (Terminal.thresh m (cons s ss)) w e in
        child-Leads C env s (λ st'. eval_subs C env m ss 0 st') (entered C ms 1 0 ∷ rest) k
          (script-Ends s)
          (subs-Ends ss w e m (cons s ss) 1 0 (drop_subs_none C ss) (omega arith) (omega arith) rest
            k next)
          st
    node-Leads (Terminal.multi_a t) w e rest k next st =
        multi_a_run-Leads C env rest k next t w e st
    node-Leads (Terminal.multi t) w e rest k next st = multi_run-Leads C env rest k next t w e st

    subs-Ends :
        (ss : Scripts C) (w : Ty) (e : ExtData) (m : ℕ) (all : Scripts C) (i sat : ℕ)
        → drop_subs C i all ≡ ss
        → 1 ≤ i
        → i ≤ sub_count C all
        → EndsFor C env
            (λ st. eval_subs C env m ss sat st)
            (entered C (miniscript (Terminal.thresh m all) w e) i sat)
    subs-Ends nil w e m all i sat h b u rest k next st =
        let ms = miniscript (Terminal.thresh m all) w e in
        thresh_end-Leads rest k next m sat ms all i st (ground (arith, b))
          (ground (arith, drop_subs_nil C i all u h)) (at C env (entered C ms i sat ∷ rest) st) refl
          refl
    subs-Ends (cons s ss) w e m all i sat h b u rest k next st =
        let ms = miniscript (Terminal.thresh m all) w e in
        let (found, others, below) = drop_subs_cons C i all s ss h in
        let started : (i == 0) ≡ false = ground (arith, b) in
        let more : (i == sub_count C all) ≡ false = ground (arith, below) in
        let one : i + 1 ≡ suc i = omega arith in
        let left : drop_subs C (i + 1) all ≡ ss = ap (λ j. drop_subs C j all) one ∙ others in
        let within : i + 1 ≤ sub_count C all = omega (arith, below) in
        boolean-Leads C env rest k
          (λ it. push_child C (some s) (push_evaluation_state C ms (i + 1) sat it))
          (λ it. push_child C (some s) (push_evaluation_state C ms (i + 1) (sat + 1) it))
          (λ st'. and_then C (eval C env s st') (λ st''. eval_subs C env m ss sat st''))
          (λ st'. and_then C (eval C env s st') (λ st''. eval_subs C env m ss (sat + 1) st''))
          (child-Leads C env s (λ st''. eval_subs C env m ss sat st'')
            (entered C ms (i + 1) sat ∷ rest) k (script-Ends s)
            (subs-Ends ss w e m all (i + 1) sat left (omega arith) within rest k next))
          (child-Leads C env s (λ st''. eval_subs C env m ss (sat + 1) st'')
            (entered C ms (i + 1) (sat + 1) ∷ rest) k (script-Ends s)
            (subs-Ends ss w e m all (i + 1) (sat + 1) left (omega arith) within rest k next))
          st st (at C env (entered C ms i sat ∷ rest) st) refl (rw (started, more, found) refl)
