-- ===== src/Interpreter/Evaluator.antt =====
-- A recursive reading of src/interpreter/mod.rs: what a fragment does to the stack of witness
-- elements, with the constraints it yields on the way, its children evaluated by recursion and not
-- by states on a stack. The evaluation of a leaf is that of src/interpreter/stack.rs.
use rust_miniscript.Prelude.{
  ℕ, zero, suc, ◌+◌, ◌-◌, Option, none, some, List, [], ◌∷◌, length, nth, take, drop, ltb, ◌==◌,
  Bool, ok, err, ◌≡◌, refl, ap, if◌then◌else◌,
}
use rust_miniscript.Primitives.Threshold.{Threshold}
use rust_miniscript.Primitives.Locktime.{Bitcoin}
use rust_miniscript.Ext.Leaves.{SigType}
use rust_miniscript.Miniscript.Ast.{Bytes, Terminal, miniscript, nil, cons}
use rust_miniscript.Interpreter.Keys.{
  Crypto, BitcoinKey, KeySigPair, SatisfiedConstraint, Error, to_pubkeyhash,
}
use rust_miniscript.Interpreter.Stack.{
  Element, Stack, Evaluation, evaluate_pk, evaluate_pkh, evaluate_after, evaluate_older,
  evaluate_sha256, evaluate_hash256, evaluate_hash160, evaluate_ripemd160, evaluate_multi,
}
use rust_miniscript.Interpreter.Iter.{Script, Node, Scripts}
use rust_miniscript.Interpreter.Arms.Multi.{nonsat}
use rust_miniscript.Interpreter.Machine.{Outputs, template_is}

module _ {B : Bitcoin} (C : Crypto B) where
  -- The constraints that are yielded, up to the stack that is left or an error.
  pub data Run : Type 0 where
    done : Stack → Run
    yields : SatisfiedConstraint C → Run → Run
    fails : Error C → Run
    panics : Run

  abbrev pub and_then : Run → (Stack → Run) → Run
  and_then (Run.done st) next = next st
  and_then (Run.yields c r) next = Run.yields c (and_then r next)
  and_then (Run.fails e) next = Run.fails e
  and_then Run.panics next = Run.panics

  -- The results of an iterator that goes through a run and continues from the stack it leaves.
  abbrev pub play : Run → (Stack → Outputs C) → Outputs C
  play (Run.done st) next = next st
  play (Run.yields c r) next = Outputs.item (ok c) (play r next)
  play (Run.fails e) next = Outputs.item (err e) Outputs.ends
  play Run.panics next = Outputs.panics

  pub and_then-play :
      (r : Run) (f : Stack → Run) (next : Stack → Outputs C)
      → play (and_then r f) next ≡ play r (λ st. play (f st) next)
  and_then-play (Run.done st) f next = refl
  and_then-play (Run.yields c r) f next = ap (Outputs.item (ok c)) (and_then-play r f next)
  and_then-play (Run.fails e) f next = refl
  and_then-play Run.panics f next = refl

  -- What the transaction and the descriptor give.
  pub record Spend : Type 0 where
    pub verify_sig : KeySigPair C → Bool
    pub sequence : B.Sequence
    pub lock_time : B.LockTime
    pub tx_template : Option Bytes
    pub sig_type : SigType

  abbrev pub leaf : Evaluation C × Stack → Run
  leaf (none, st) = Run.done st
  leaf (some (ok c), st) = Run.yields c (Run.done st)
  leaf (some (err e), st) = Run.fails e

  -- The top of the stack as a Boolean.
  abbrev pub boolean : (Stack → Run) → (Stack → Run) → Stack → Run
  boolean on_dissatisfied on_satisfied (Element.dissatisfied ∷ st) = on_dissatisfied st
  boolean on_dissatisfied on_satisfied (Element.satisfied ∷ st) = on_satisfied st
  boolean on_dissatisfied on_satisfied (Element.push _ ∷ st) =
      Run.fails Error.unexpected_stack_element_push
  boolean on_dissatisfied on_satisfied [] = Run.fails Error.unexpected_stack_end

  abbrev pub dissatisfy : Stack → Run
  dissatisfy st = Run.done (Element.dissatisfied ∷ st)

  abbrev pub satisfy : Stack → Run
  satisfy st = Run.done (Element.satisfied ∷ st)

  abbrev pub verify_top : Stack → Run
  verify_top (Element.satisfied ∷ st) = Run.done st
  verify_top (_ ∷ st) = Run.fails Error.verify_failed
  verify_top [] = Run.fails Error.unexpected_stack_end

  abbrev pub not_zero : Stack → Run
  not_zero (Element.dissatisfied ∷ st) = dissatisfy st
  not_zero (_ ∷ st) = satisfy st
  not_zero [] = Run.fails Error.unexpected_stack_end

  abbrev pub unless_zero : (Stack → Run) → Stack → Run
  unless_zero next (Element.dissatisfied ∷ st) = dissatisfy st
  unless_zero next (e ∷ st) = next (e ∷ st)
  unless_zero next [] = Run.fails Error.unexpected_stack_end

  -- The second operand of a conjunction whose first one is satisfied, and of a disjunction whose
  -- first one is not.
  abbrev pub and_top : Stack → Run
  and_top (Element.satisfied ∷ st) = satisfy st
  and_top (_ ∷ st) = dissatisfy st
  and_top [] = Run.fails Error.unexpected_stack_end

  -- The top of the stack is replaced.
  abbrev pub replace_top : Element → Stack → Run
  replace_top e (_ ∷ st) = Run.done (e ∷ st)
  replace_top e [] = Run.fails Error.unexpected_stack_end

  module _ (env : Spend) where
    abbrev pub older_leaf : Option C.RelativeLockTime → Stack → Run
    older_leaf none st = Run.panics
    older_leaf (some n) st = leaf (evaluate_older C n env.sequence st)

    abbrev pub template_leaf : Bytes → Stack → Run
    template_leaf hash st =
        if template_is C env.tx_template hash
        then Run.yields (SatisfiedConstraint.tx_template hash) (Run.done st)
        else Run.fails Error.tx_template_hash_wrong

    -- A key of `multi_a`, whose Boolean is dropped; `next` is given how many are satisfied.
    abbrev pub multi_a_key : ℕ → (ℕ → Stack → Run) → Evaluation C × Stack → Run
    multi_a_key n_satisfied next (some (ok c), e ∷ st) = Run.yields c (next (n_satisfied + 1) st)
    multi_a_key n_satisfied next (none, e ∷ st) = next n_satisfied st
    multi_a_key n_satisfied next (some (err e), st) = Run.fails e
    multi_a_key n_satisfied next (_, []) = Run.fails Error.unexpected_stack_end

    -- The keys that are left of `multi_a`, with the number of those that were satisfied.
    unfoldable pub multi_a_keys : ℕ → List (BitcoinKey C) → ℕ → Stack → Run
    multi_a_keys k [] n_satisfied st =
        Run.done ((if n_satisfied == k then Element.satisfied else Element.dissatisfied) ∷ st)
    multi_a_keys k (pk ∷ pks) n_satisfied st =
        multi_a_key n_satisfied (λ n st'. multi_a_keys k pks n st')
          (evaluate_pk C env.verify_sig pk st)

    -- A key of `multi` at an index.
    abbrev pub multi_key : ℕ → (ℕ → Stack → Run) → Evaluation C × Stack → Run
    multi_key n_satisfied next (some (ok c), st) = Run.yields c (next (n_satisfied + 1) st)
    multi_key n_satisfied next (none, st) = next n_satisfied st
    multi_key n_satisfied next (some (err e), st) = Run.fails e

    abbrev pub multi_at : ℕ → (ℕ → Stack → Run) → Stack → Option (BitcoinKey C) → Run
    multi_at n_satisfied next st none = Run.panics
    multi_at n_satisfied next st (some pk) =
        multi_key n_satisfied next (evaluate_multi C env.verify_sig pk st)

    -- The extra zero.
    abbrev pub extra_zero : Stack → Run
    extra_zero (Element.dissatisfied ∷ st) = satisfy st
    extra_zero _ = Run.fails Error.missing_extra_zero_multi_sig

    -- `multi` with the first `j` keys left, which are tried from the last one on.
    unfoldable pub multi_keys : ℕ → List (BitcoinKey C) → ℕ → ℕ → Stack → Run
    multi_keys k keys zero n_satisfied st =
        if n_satisfied == k then extra_zero st else Run.fails Error.multi_sig_evaluation_error
    multi_keys k keys (suc j) n_satisfied st =
        if n_satisfied == k
        then extra_zero st
        else multi_at n_satisfied (λ n st'. multi_keys k keys j n st') st (nth j keys)

    abbrev pub multi_top : Threshold (BitcoinKey C) → Stack → Run
    multi_top t (Element.dissatisfied ∷ st) =
        let all : Stack = Element.dissatisfied ∷ st in
        if nonsat C (take (t.k + 1) all) == t.k + 1
        then dissatisfy (drop (t.k + 1) all)
        else Run.fails Error.missing_extra_zero_multi_sig
    multi_top t (e ∷ st) =
        multi_at 0 (λ n st'. multi_keys t.k t.inner (length t.inner - 1) n st') (e ∷ st)
          (nth (length t.inner - 1) t.inner)
    multi_top t [] = Run.fails Error.unexpected_stack_end

    abbrev pub multi_run : Threshold (BitcoinKey C) → Stack → Run
    multi_run t st =
        if ltb (length st) (t.k + 1)
        then Run.fails Error.insufficient_signatures_multi_sig
        else multi_top t st

    -- The end of a threshold, with the last child's Boolean on the stack.
    abbrev pub thresh_end : ℕ → ℕ → Stack → Run
    thresh_end k n_satisfied st =
        boolean
          (λ st'.
            Run.done ((if n_satisfied == k then Element.satisfied else Element.dissatisfied) ∷ st'))
          (λ st'.
            Run.done
              ((if n_satisfied == k - 1 then Element.satisfied else Element.dissatisfied) ∷ st'))
          st

    unfoldable mutual
      pub eval : Script C → Stack → Run
      eval (miniscript n t e) st = eval_node n st

      pub eval_node : Node C → Stack → Run
      eval_node Terminal.true st = satisfy st
      eval_node Terminal.false st = dissatisfy st
      eval_node (Terminal.pk_k pk) st = leaf (evaluate_pk C env.verify_sig pk st)
      eval_node (Terminal.pk_h pk) st =
          leaf (evaluate_pkh C env.verify_sig (to_pubkeyhash C pk env.sig_type) env.sig_type st)
      eval_node (Terminal.raw_pk_h pkh) st =
          leaf (evaluate_pkh C env.verify_sig pkh env.sig_type st)
      eval_node (Terminal.tx_template hash) st = template_leaf hash st
      eval_node (Terminal.after n) st = leaf (evaluate_after C n.inner env.lock_time st)
      eval_node (Terminal.older n) st = older_leaf (C.to_relative_lock_time n.inner) st
      eval_node (Terminal.sha256 hash) st = leaf (evaluate_sha256 C hash st)
      eval_node (Terminal.hash256 hash) st = leaf (evaluate_hash256 C hash st)
      eval_node (Terminal.hash160 hash) st = leaf (evaluate_hash160 C hash st)
      eval_node (Terminal.ripemd160 hash) st = leaf (evaluate_ripemd160 C hash st)
      eval_node (Terminal.alt s) st = eval s st
      eval_node (Terminal.swap s) st = eval s st
      eval_node (Terminal.check s) st = eval s st
      eval_node (Terminal.inscribe_pre i s) st = eval s st
      eval_node (Terminal.inscribe_post i s) st = eval s st
      eval_node (Terminal.dup_if s) st =
          boolean dissatisfy (λ st'. and_then (eval s st') satisfy) st
      eval_node (Terminal.verify s) st = and_then (eval s st) verify_top
      eval_node (Terminal.zero_not_equal s) st = and_then (eval s st) not_zero
      eval_node (Terminal.non_zero s) st = unless_zero (λ st'. eval s st') st
      eval_node (Terminal.and_v l r) st = and_then (eval l st) (λ st'. eval r st')
      eval_node (Terminal.and_b l r) st = and_then (eval l st) (
          boolean (λ st'. and_then (eval r st') (replace_top Element.dissatisfied))
            (λ st'. and_then (eval r st') and_top))
      eval_node (Terminal.or_b l r) st = and_then (eval l st) (
          boolean (λ st'. and_then (eval r st') not_zero)
            (λ st'. and_then (eval r st') (replace_top Element.satisfied)))
      eval_node (Terminal.and_or x y z) st =
          and_then (eval x st) (boolean (λ st'. eval z st') (λ st'. eval y st'))
      eval_node (Terminal.or_c l r) st = and_then (eval l st) (boolean (λ st'. eval r st') Run.done)
      eval_node (Terminal.or_d l r) st = and_then (eval l st) (boolean (λ st'. eval r st') satisfy)
      eval_node (Terminal.or_i l r) st = boolean (λ st'. eval r st') (λ st'. eval l st') st
      eval_node (Terminal.thresh k nil) st = Run.panics
      eval_node (Terminal.thresh k (cons s ss)) st =
          and_then (eval s st) (λ st'. eval_subs k ss 0 st')
      eval_node (Terminal.multi_a t) st = multi_a_keys t.k t.inner 0 st
      eval_node (Terminal.multi t) st = multi_run t st

      -- The other children of a threshold, with the Boolean of the one before on the stack and the
      -- number of those before it that were satisfied.
      pub eval_subs : ℕ → Scripts C → ℕ → Stack → Run
      eval_subs k nil n_satisfied st = thresh_end k n_satisfied st
      eval_subs k (cons s ss) n_satisfied st =
          boolean (λ st'. and_then (eval s st') (λ st''. eval_subs k ss n_satisfied st''))
            (λ st'. and_then (eval s st') (λ st''. eval_subs k ss (n_satisfied + 1) st'')) st
