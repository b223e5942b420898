-- ===== src/Policy/Lift/Runs.antt =====
-- The stack machine of `lift` in src/policy/mod.rs against a recursion on the tree.
use rust_miniscript.Prelude.{
  Bool, true, false, not, ◌||◌, List, [], ◌∷◌, ◌++◌, Result, ok, err, ◌>>=◌, if◌then◌else◌, ◌≡◌,
  refl, ap, sym, ◌∙◌, Bool-cases, inl, inr,
}
use rust_miniscript.Primitives.Locktime.{Bitcoin}
use rust_miniscript.Miniscript.Ast.{
  MiniscriptKey, Terminal, Miniscript, miniscript, Subs, nil, cons,
}
use rust_miniscript.Miniscript.Context.{Context}
use rust_miniscript.Policy.Semantic.{Policy, Policies, normalized}
use rust_miniscript.Policy.Lift.{
  LiftError, Fault, within_resource_limits, has_mixed_timelocks, lift_check, contains_raw_pkh,
  node_has_raw, any_has_raw, rtl_post_order, rtl_children, rtl_subs, pop, inscribed, and_of, or_of,
  pop_each, new_term, lift_loop, lift,
}
use rust_miniscript.Policy.Lift.Recursion.{lifted, lifted_node, lifted_subs}

module _ {B : Bitcoin} {K : MiniscriptKey} where
  abbrev raw_error : Result Fault (List (Policy B K))
  raw_error = err (Fault.lift_error LiftError.raw_descriptor_lift)

  -- From every stack, the nodes end in the error for raw hashes, or push `out`.
  abbrev Runs : Bool → List (Terminal B K) → List (Policy B K) → Type 0
  Runs raw ns out =
      (stack : List (Policy B K))
      → lift_loop ns stack ≡ (if raw then raw_error else ok (out ++ stack))

  bind_loop :
      (r : Result Fault (Policy B K × List (Policy B K))) (ns ms : List (Terminal B K))
      → ((stack : List (Policy B K))
          → lift_loop (ns ++ ms) stack ≡ (lift_loop ns stack >>= lift_loop ms))
      → (r >>= λ new. lift_loop (ns ++ ms) (new.0 ∷ new.1))
        ≡ ((r >>= λ new. lift_loop ns (new.0 ∷ new.1)) >>= lift_loop ms)
  bind_loop (err e) ns ms h = refl
  bind_loop (ok new) ns ms h = h (new.0 ∷ new.1)

  lift_loop-append :
      (ns ms : List (Terminal B K)) (stack : List (Policy B K))
      → lift_loop (ns ++ ms) stack ≡ (lift_loop ns stack >>= lift_loop ms)
  unfolding lift_loop
  lift_loop-append [] ms stack = refl
  lift_loop-append (n ∷ ns) ms stack =
      bind_loop (new_term n stack) ns ms (λ st. lift_loop-append ns ms st)

  lists_assoc : (a b c : List (Policy B K)) → (a ++ b) ++ c ≡ a ++ (b ++ c)
  lists_assoc [] b c = refl
  lists_assoc (x ∷ a) b c = ap (λ r. x ∷ r) (lists_assoc a b c)

  Runs-append :
      (q r : Bool) (ns ms : List (Terminal B K)) (out new : List (Policy B K))
      → Runs q ns out
      → Runs r ms new
      → Runs (r || q) (ns ++ ms) (new ++ out)
  Runs-append true true ns ms out new f g stack = lift_loop-append ns ms stack ∙ rw (f stack) refl
  Runs-append true false ns ms out new f g stack = lift_loop-append ns ms stack ∙ rw (f stack) refl
  Runs-append false true ns ms out new f g stack =
      lift_loop-append ns ms stack ∙ rw (f stack) (g (out ++ stack))
  Runs-append false false ns ms out new f g stack =
      lift_loop-append ns ms stack
      ∙ rw (f stack) (g (out ++ stack) ∙ ap ok (sym (lists_assoc new out stack)))

  Runs-node :
      (raw : Bool) (ns : List (Terminal B K)) (n : Terminal B K) (out : List (Policy B K))
      (p : Policy B K)
      → Runs raw ns out
      → ((stack : List (Policy B K)) → new_term n (out ++ stack) ≡ ok (p, stack))
      → Runs raw (ns ++ (n ∷ [])) (p ∷ [])
  unfolding lift_loop
  Runs-node true ns n out p f g stack = lift_loop-append ns (n ∷ []) stack ∙ rw (f stack) refl
  Runs-node false ns n out p f g stack =
      lift_loop-append ns (n ∷ []) stack ∙ rw (f stack) (rw (g stack) refl)

  abbrev policy_list : Policies B K → List (Policy B K)
  policy_list Policies.nil = []
  policy_list (Policies.cons p ps) = p ∷ policy_list ps

  pop_each-policy_list :
      (ss : Subs B K) (stack : List (Policy B K))
      → pop_each ss (policy_list (lifted_subs ss) ++ stack) ≡ ok (lifted_subs ss, stack)
  unfolding pop_each lifted_subs
  pop_each-policy_list nil stack = refl
  pop_each-policy_list (cons s ss) stack = rw (pop_each-policy_list ss stack) refl

  -- The nodes with one, two and three children.
  Runs-one :
      (n : Terminal B K) (s : Miniscript B K) (p : Policy B K)
      → Runs (contains_raw_pkh s) (rtl_post_order s) (lifted s ∷ [])
      → ((stack : List (Policy B K)) → new_term n (lifted s ∷ stack) ≡ ok (p, stack))
      → Runs (contains_raw_pkh s) (rtl_post_order s ++ (n ∷ [])) (p ∷ [])
  Runs-one n s p f g = Runs-node (contains_raw_pkh s) (rtl_post_order s) n (lifted s ∷ []) p f g

  Runs-two :
      (n : Terminal B K) (l r : Miniscript B K) (p : Policy B K)
      → Runs (contains_raw_pkh l) (rtl_post_order l) (lifted l ∷ [])
      → Runs (contains_raw_pkh r) (rtl_post_order r) (lifted r ∷ [])
      → ((stack : List (Policy B K)) → new_term n (lifted l ∷ lifted r ∷ stack) ≡ ok (p, stack))
      → Runs
          (contains_raw_pkh l || contains_raw_pkh r)
          ((rtl_post_order r ++ rtl_post_order l) ++ (n ∷ []))
          (p ∷ [])
  Runs-two n l r p f g h =
      Runs-node (contains_raw_pkh l || contains_raw_pkh r) (rtl_post_order r ++ rtl_post_order l) n
        (lifted l ∷ lifted r ∷ []) p
        (Runs-append (contains_raw_pkh r) (contains_raw_pkh l) (rtl_post_order r) (rtl_post_order l)
          (lifted r ∷ []) (lifted l ∷ []) g f)
        h

  mutual
    unfolding contains_raw_pkh rtl_post_order lifted new_term lift_loop

    rtl_post_order-Runs :
        (ms : Miniscript B K) → Runs (contains_raw_pkh ms) (rtl_post_order ms) (lifted ms ∷ [])
    rtl_post_order-Runs (miniscript n t e) = node-Runs n

    node-Runs :
        (n : Terminal B K) → Runs (node_has_raw n) (rtl_children n ++ (n ∷ [])) (lifted_node n ∷ [])
    node-Runs (Terminal.raw_pk_h h) = λ stack. refl
    node-Runs (Terminal.inscribe_pre i s) =
        Runs-one (Terminal.inscribe_pre i s) s (inscribed i (lifted s)) (rtl_post_order-Runs s)
          (λ stack. refl)
    node-Runs (Terminal.inscribe_post i s) =
        Runs-one (Terminal.inscribe_post i s) s (inscribed i (lifted s)) (rtl_post_order-Runs s)
          (λ stack. refl)
    node-Runs (Terminal.alt s) =
        Runs-one (Terminal.alt s) s (lifted s) (rtl_post_order-Runs s) (λ stack. refl)
    node-Runs (Terminal.swap s) =
        Runs-one (Terminal.swap s) s (lifted s) (rtl_post_order-Runs s) (λ stack. refl)
    node-Runs (Terminal.check s) =
        Runs-one (Terminal.check s) s (lifted s) (rtl_post_order-Runs s) (λ stack. refl)
    node-Runs (Terminal.dup_if s) =
        Runs-one (Terminal.dup_if s) s (lifted s) (rtl_post_order-Runs s) (λ stack. refl)
    node-Runs (Terminal.verify s) =
        Runs-one (Terminal.verify s) s (lifted s) (rtl_post_order-Runs s) (λ stack. refl)
    node-Runs (Terminal.non_zero s) =
        Runs-one (Terminal.non_zero s) s (lifted s) (rtl_post_order-Runs s) (λ stack. refl)
    node-Runs (Terminal.zero_not_equal s) =
        Runs-one (Terminal.zero_not_equal s) s (lifted s) (rtl_post_order-Runs s) (λ stack. refl)
    node-Runs (Terminal.and_v l r) =
        Runs-two (Terminal.and_v l r) l r (and_of (lifted l) (lifted r)) (rtl_post_order-Runs l)
          (rtl_post_order-Runs r) (λ stack. refl)
    node-Runs (Terminal.and_b l r) =
        Runs-two (Terminal.and_b l r) l r (and_of (lifted l) (lifted r)) (rtl_post_order-Runs l)
          (rtl_post_order-Runs r) (λ stack. refl)
    node-Runs (Terminal.or_b l r) =
        Runs-two (Terminal.or_b l r) l r (or_of (lifted l) (lifted r)) (rtl_post_order-Runs l)
          (rtl_post_order-Runs r) (λ stack. refl)
    node-Runs (Terminal.or_d l r) =
        Runs-two (Terminal.or_d l r) l r (or_of (lifted l) (lifted r)) (rtl_post_order-Runs l)
          (rtl_post_order-Runs r) (λ stack. refl)
    node-Runs (Terminal.or_c l r) =
        Runs-two (Terminal.or_c l r) l r (or_of (lifted l) (lifted r)) (rtl_post_order-Runs l)
          (rtl_post_order-Runs r) (λ stack. refl)
    node-Runs (Terminal.or_i l r) =
        Runs-two (Terminal.or_i l r) l r (or_of (lifted l) (lifted r)) (rtl_post_order-Runs l)
          (rtl_post_order-Runs r) (λ stack. refl)
    node-Runs (Terminal.and_or x y z) =
        Runs-node (node_has_raw (Terminal.and_or x y z)) (rtl_children (Terminal.and_or x y z))
          (Terminal.and_or x y z) (lifted x ∷ lifted y ∷ lifted z ∷ [])
          (lifted_node (Terminal.and_or x y z))
          (Runs-append (contains_raw_pkh z) (contains_raw_pkh x || contains_raw_pkh y)
            (rtl_post_order z) (rtl_post_order y ++ rtl_post_order x) (lifted z ∷ [])
            (lifted x ∷ lifted y ∷ []) (rtl_post_order-Runs z)
            (Runs-append (contains_raw_pkh y) (contains_raw_pkh x) (rtl_post_order y)
              (rtl_post_order x) (lifted y ∷ []) (lifted x ∷ []) (rtl_post_order-Runs y)
              (rtl_post_order-Runs x)))
          (λ stack. refl)
    node-Runs (Terminal.thresh k ss) =
        Runs-node (any_has_raw ss) (rtl_subs ss) (Terminal.thresh k ss)
          (policy_list (lifted_subs ss)) (Policy.thresh k (lifted_subs ss)) (rtl_subs-Runs ss)
          (λ stack. rw (pop_each-policy_list ss stack) refl)
    node-Runs _ = λ stack. refl

    rtl_subs-Runs :
        (ss : Subs B K) → Runs (any_has_raw ss) (rtl_subs ss) (policy_list (lifted_subs ss))
    rtl_subs-Runs nil = λ stack. refl
    rtl_subs-Runs (cons s ss) =
        Runs-append (any_has_raw ss) (contains_raw_pkh s) (rtl_subs ss) (rtl_post_order s)
          (policy_list (lifted_subs ss)) (lifted s ∷ []) (rtl_subs-Runs ss) (rtl_post_order-Runs s)

  loop_pop :
      (ms : Miniscript B K)
      → (do stack ← lift_loop (rtl_post_order ms) []; last ← pop stack; ok (normalized last.0)) ≡ (
          if contains_raw_pkh ms
          then err (Fault.lift_error LiftError.raw_descriptor_lift)
          else ok (normalized (lifted ms)))
  loop_pop ms = elim (Bool-cases (contains_raw_pkh ms)) [
    | inl raw ↦ rw (rtl_post_order-Runs ms [], raw) refl
    | inr plain ↦ rw (rtl_post_order-Runs ms [], plain) refl
  ]

  -- The stack machine of `lift` never panics. It fails for a script that exceeds the limits of the
  -- context, or else that mixes lock times, or else that has a raw public key hash, each with its
  -- error; otherwise it gives the normalized policy of the recursion on the tree.
  pub lift-lifted :
      (c : Context) (ms : Miniscript B K)
      → lift c ms ≡ (
          if not (within_resource_limits c ms)
          then err (Fault.lift_error LiftError.branch_exceed_resource_limits)
          else if has_mixed_timelocks ms
          then err (Fault.lift_error LiftError.height_timelock_combination)
          else if contains_raw_pkh ms
          then err (Fault.lift_error LiftError.raw_descriptor_lift)
          else ok (normalized (lifted ms)))
  unfolding lift lift_check
  lift-lifted c ms = elim (Bool-cases (within_resource_limits c ms)) [
    | inr over ↦ rw over refl
    | inl within ↦ elim (Bool-cases (has_mixed_timelocks ms)) [
      | inl mixed ↦ rw (within, mixed) refl
      | inr plain ↦ rw (within, plain) (loop_pop ms)
    ]
  ]
