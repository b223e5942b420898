-- ===== src/Policy/Lift.antt =====
-- Lifting of miniscripts to abstract policies: src/policy/mod.rs, with the tests of
-- src/miniscript/analyzable.rs that it makes. The order of the nodes is that of `rtl_post_order_iter`
-- of src/iter/tree.rs, and the stack's top is the head of a list.
pub mod Recursion
pub mod Runs
pub mod Spending
use rust_miniscript.Prelude.{
  ℕ, Bool, true, false, not, ◌||◌, List, [], ◌∷◌, ◌++◌, Result, ok, err, ◌>>=◌, ◌>>◌, is_ok,
  if◌then◌else◌,
}
use rust_miniscript.Primitives.Locktime.{Bitcoin}
use rust_miniscript.Miniscript.Ast.{
  MiniscriptKey, Inscription, Terminal, Miniscript, miniscript, Subs, nil, cons, ext, node,
}
use rust_miniscript.Miniscript.Context.{Context, check_local_validity}
use rust_miniscript.Policy.Semantic.{Policy, Policies, normalized}

pub data LiftError : Type 0 where
  height_timelock_combination branch_exceed_resource_limits raw_descriptor_lift : LiftError

-- An error that the code returns, or the panic of an `unwrap`.
pub data Fault : Type 0 where
  lift_error : LiftError → Fault
  panic : Fault

-- `?` from a `LiftError`.
abbrev pub map_err : Result LiftError (Unit {0}) → Result Fault (Unit {0})
map_err (ok u) = ok u
map_err (err e) = err (Fault.lift_error e)

module _ {B : Bitcoin} {K : MiniscriptKey} where
  abbrev pub within_resource_limits : Context → Miniscript B K → Bool
  within_resource_limits c ms = is_ok (check_local_validity c ms)

  abbrev pub has_mixed_timelocks : Miniscript B K → Bool
  has_mixed_timelocks ms = (ext ms).timelock_info.contains_combination

  unfoldable pub lift_check : Context → Miniscript B K → Result LiftError (Unit {0})
  lift_check c ms =
      if not (within_resource_limits c ms)
      then err LiftError.branch_exceed_resource_limits
      else if has_mixed_timelocks ms
      then err LiftError.height_timelock_combination
      else ok tt

  unfoldable mutual
    -- `iter().any(..)` of `contains_raw_pkh`.
    pub contains_raw_pkh : Miniscript B K → Bool
    contains_raw_pkh (miniscript n t e) = node_has_raw n

    pub node_has_raw : Terminal B K → Bool
    node_has_raw (Terminal.raw_pk_h h) = true
    node_has_raw (Terminal.inscribe_pre i s) = contains_raw_pkh s
    node_has_raw (Terminal.inscribe_post i s) = contains_raw_pkh s
    node_has_raw (Terminal.alt s) = contains_raw_pkh s
    node_has_raw (Terminal.swap s) = contains_raw_pkh s
    node_has_raw (Terminal.check s) = contains_raw_pkh s
    node_has_raw (Terminal.dup_if s) = contains_raw_pkh s
    node_has_raw (Terminal.verify s) = contains_raw_pkh s
    node_has_raw (Terminal.non_zero s) = contains_raw_pkh s
    node_has_raw (Terminal.zero_not_equal s) = contains_raw_pkh s
    node_has_raw (Terminal.and_v l r) = contains_raw_pkh l || contains_raw_pkh r
    node_has_raw (Terminal.and_b l r) = contains_raw_pkh l || contains_raw_pkh r
    node_has_raw (Terminal.and_or x y z) =
        (contains_raw_pkh x || contains_raw_pkh y) || contains_raw_pkh z
    node_has_raw (Terminal.or_b l r) = contains_raw_pkh l || contains_raw_pkh r
    node_has_raw (Terminal.or_d l r) = contains_raw_pkh l || contains_raw_pkh r
    node_has_raw (Terminal.or_c l r) = contains_raw_pkh l || contains_raw_pkh r
    node_has_raw (Terminal.or_i l r) = contains_raw_pkh l || contains_raw_pkh r
    node_has_raw (Terminal.thresh k ss) = any_has_raw ss
    node_has_raw _ = false

    pub any_has_raw : Subs B K → Bool
    any_has_raw nil = false
    any_has_raw (cons s ss) = contains_raw_pkh s || any_has_raw ss

  unfoldable mutual
    -- The nodes in the order (right child, left child, parent).
    pub rtl_post_order : Miniscript B K → List (Terminal B K)
    rtl_post_order (miniscript n t e) = rtl_children n ++ (n ∷ [])

    pub rtl_children : Terminal B K → List (Terminal B K)
    rtl_children (Terminal.inscribe_pre i s) = rtl_post_order s
    rtl_children (Terminal.inscribe_post i s) = rtl_post_order s
    rtl_children (Terminal.alt s) = rtl_post_order s
    rtl_children (Terminal.swap s) = rtl_post_order s
    rtl_children (Terminal.check s) = rtl_post_order s
    rtl_children (Terminal.dup_if s) = rtl_post_order s
    rtl_children (Terminal.verify s) = rtl_post_order s
    rtl_children (Terminal.non_zero s) = rtl_post_order s
    rtl_children (Terminal.zero_not_equal s) = rtl_post_order s
    rtl_children (Terminal.and_v l r) = rtl_post_order r ++ rtl_post_order l
    rtl_children (Terminal.and_b l r) = rtl_post_order r ++ rtl_post_order l
    rtl_children (Terminal.and_or x y z) =
        rtl_post_order z ++ (rtl_post_order y ++ rtl_post_order x)
    rtl_children (Terminal.or_b l r) = rtl_post_order r ++ rtl_post_order l
    rtl_children (Terminal.or_d l r) = rtl_post_order r ++ rtl_post_order l
    rtl_children (Terminal.or_c l r) = rtl_post_order r ++ rtl_post_order l
    rtl_children (Terminal.or_i l r) = rtl_post_order r ++ rtl_post_order l
    rtl_children (Terminal.thresh k ss) = rtl_subs ss
    rtl_children _ = []

    pub rtl_subs : Subs B K → List (Terminal B K)
    rtl_subs nil = []
    rtl_subs (cons s ss) = rtl_subs ss ++ rtl_post_order s

  -- `stack.pop().unwrap()`: the element and the stack that is left.
  abbrev pub pop : List (Policy B K) → Result Fault (Policy B K × List (Policy B K))
  pop [] = err Fault.panic
  pop (p ∷ stack) = ok (p, stack)

  -- The loop over the inscriptions from the last one on.
  abbrev pub inscribed : List Inscription → Policy B K → Policy B K
  inscribed [] child = child
  inscribed (i ∷ is) child = Policy.inscribe i (inscribed is child)

  abbrev pub and_of : Policy B K → Policy B K → Policy B K
  and_of p q = Policy.thresh 2 (Policies.cons p (Policies.cons q Policies.nil))

  abbrev pub or_of : Policy B K → Policy B K → Policy B K
  or_of p q = Policy.thresh 1 (Policies.cons p (Policies.cons q Policies.nil))

  abbrev pub key_policies : List K.Pk → Policies B K
  key_policies [] = Policies.nil
  key_policies (pk ∷ pks) = Policies.cons (Policy.key pk) (key_policies pks)

  -- One `pop` for each child of a `thresh`.
  unfoldable pub pop_each :
      Subs B K → List (Policy B K) → Result Fault (Policies B K × List (Policy B K))
  pop_each nil stack = ok (Policies.nil, stack)
  pop_each (cons s ss) stack = do
    first ← pop stack
    rest ← pop_each ss first.1
    ok (Policies.cons first.0 rest.0, rest.1)

  -- The three kinds of combination of what is on the stack.
  abbrev pub combine_two :
      (Policy B K → Policy B K → Policy B K)
      → List (Policy B K)
      → Result Fault (Policy B K × List (Policy B K))
  combine_two f stack = do p ← pop stack; q ← pop p.1; ok (f p.0 q.0, q.1)

  -- The new term for a node, and the stack without what it pops.
  unfoldable pub new_term :
      Terminal B K → List (Policy B K) → Result Fault (Policy B K × List (Policy B K))
  unfolding pop_each
  new_term (Terminal.pk_k pk) stack = ok (Policy.key pk, stack)
  new_term (Terminal.pk_h pk) stack = ok (Policy.key pk, stack)
  new_term (Terminal.raw_pk_h pkh) stack = err (Fault.lift_error LiftError.raw_descriptor_lift)
  new_term (Terminal.after t) stack = ok (Policy.after t, stack)
  new_term (Terminal.older t) stack = ok (Policy.older t, stack)
  new_term (Terminal.sha256 h) stack = ok (Policy.sha256 h, stack)
  new_term (Terminal.hash256 h) stack = ok (Policy.hash256 h, stack)
  new_term (Terminal.ripemd160 h) stack = ok (Policy.ripemd160 h, stack)
  new_term (Terminal.hash160 h) stack = ok (Policy.hash160 h, stack)
  new_term (Terminal.tx_template h) stack = ok (Policy.tx_template h, stack)
  new_term (Terminal.inscribe_pre i s) stack = do p ← pop stack; ok (inscribed i p.0, p.1)
  new_term (Terminal.inscribe_post i s) stack = do p ← pop stack; ok (inscribed i p.0, p.1)
  new_term Terminal.false stack = ok (Policy.unsatisfiable, stack)
  new_term Terminal.true stack = ok (Policy.trivial, stack)
  new_term (Terminal.alt s) stack = pop stack
  new_term (Terminal.swap s) stack = pop stack
  new_term (Terminal.check s) stack = pop stack
  new_term (Terminal.dup_if s) stack = pop stack
  new_term (Terminal.verify s) stack = pop stack
  new_term (Terminal.non_zero s) stack = pop stack
  new_term (Terminal.zero_not_equal s) stack = pop stack
  new_term (Terminal.and_v l r) stack = combine_two and_of stack
  new_term (Terminal.and_b l r) stack = combine_two and_of stack
  new_term (Terminal.and_or x y z) stack = do
    both ← combine_two and_of stack
    other ← pop both.1
    ok (or_of both.0 other.0, other.1)
  new_term (Terminal.or_b l r) stack = combine_two or_of stack
  new_term (Terminal.or_d l r) stack = combine_two or_of stack
  new_term (Terminal.or_c l r) stack = combine_two or_of stack
  new_term (Terminal.or_i l r) stack = combine_two or_of stack
  new_term (Terminal.thresh k ss) stack = do
    popped ← pop_each ss stack
    ok (Policy.thresh k popped.0, popped.1)
  new_term (Terminal.multi t) stack = ok (Policy.thresh t.k (key_policies t.inner), stack)
  new_term (Terminal.multi_a t) stack = ok (Policy.thresh t.k (key_policies t.inner), stack)

  unfoldable pub lift_loop :
      List (Terminal B K) → List (Policy B K) → Result Fault (List (Policy B K))
  unfolding new_term
  lift_loop [] stack = ok stack
  lift_loop (n ∷ ns) stack = do new ← new_term n stack; lift_loop ns (new.0 ∷ new.1)

  unfoldable pub lift : Context → Miniscript B K → Result Fault (Policy B K)
  unfolding lift_check rtl_post_order lift_loop
  lift c ms = do
    map_err (lift_check c ms)
    stack ← lift_loop (rtl_post_order ms) []
    last ← pop stack
    ok (normalized last.0)
