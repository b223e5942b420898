-- ===== src/Policy/Lift/Recursion.antt =====
-- What `lift` of src/policy/mod.rs makes of a tree, as a recursion without a stack.
use rust_miniscript.Primitives.Locktime.{Bitcoin}
use rust_miniscript.Miniscript.Ast.{
  MiniscriptKey, Terminal, Miniscript, miniscript, Subs, nil, cons,
}
use rust_miniscript.Policy.Semantic.{Policy, Policies}
use rust_miniscript.Policy.Lift.{inscribed, and_of, or_of, key_policies}

module _ {B : Bitcoin} {K : MiniscriptKey} where
  unfoldable mutual
    -- The policy of a tree without raw public key hashes, by recursion.
    pub lifted : Miniscript B K → Policy B K
    lifted (miniscript n t e) = lifted_node n

    pub lifted_node : Terminal B K → Policy B K
    lifted_node (Terminal.pk_k pk) = Policy.key pk
    lifted_node (Terminal.pk_h pk) = Policy.key pk
    lifted_node (Terminal.raw_pk_h h) = Policy.unsatisfiable
    lifted_node (Terminal.after t) = Policy.after t
    lifted_node (Terminal.older t) = Policy.older t
    lifted_node (Terminal.sha256 h) = Policy.sha256 h
    lifted_node (Terminal.hash256 h) = Policy.hash256 h
    lifted_node (Terminal.ripemd160 h) = Policy.ripemd160 h
    lifted_node (Terminal.hash160 h) = Policy.hash160 h
    lifted_node (Terminal.tx_template h) = Policy.tx_template h
    lifted_node (Terminal.inscribe_pre i s) = inscribed i (lifted s)
    lifted_node (Terminal.inscribe_post i s) = inscribed i (lifted s)
    lifted_node Terminal.false = Policy.unsatisfiable
    lifted_node Terminal.true = Policy.trivial
    lifted_node (Terminal.alt s) = lifted s
    lifted_node (Terminal.swap s) = lifted s
    lifted_node (Terminal.check s) = lifted s
    lifted_node (Terminal.dup_if s) = lifted s
    lifted_node (Terminal.verify s) = lifted s
    lifted_node (Terminal.non_zero s) = lifted s
    lifted_node (Terminal.zero_not_equal s) = lifted s
    lifted_node (Terminal.and_v l r) = and_of (lifted l) (lifted r)
    lifted_node (Terminal.and_b l r) = and_of (lifted l) (lifted r)
    lifted_node (Terminal.and_or x y z) = or_of (and_of (lifted x) (lifted y)) (lifted z)
    lifted_node (Terminal.or_b l r) = or_of (lifted l) (lifted r)
    lifted_node (Terminal.or_d l r) = or_of (lifted l) (lifted r)
    lifted_node (Terminal.or_c l r) = or_of (lifted l) (lifted r)
    lifted_node (Terminal.or_i l r) = or_of (lifted l) (lifted r)
    lifted_node (Terminal.thresh k ss) = Policy.thresh k (lifted_subs ss)
    lifted_node (Terminal.multi t) = Policy.thresh t.k (key_policies t.inner)
    lifted_node (Terminal.multi_a t) = Policy.thresh t.k (key_policies t.inner)

    pub lifted_subs : Subs B K → Policies B K
    lifted_subs nil = Policies.nil
    lifted_subs (cons s ss) = Policies.cons (lifted s) (lifted_subs ss)
