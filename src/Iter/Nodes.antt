-- ===== src/Iter/Nodes.antt =====
-- src/iter/mod.rs: miniscripts as trees.
pub mod Rtl
use rust_miniscript.Prelude.{ℕ, zero, suc, List, [], ◌∷◌}
use rust_miniscript.Primitives.Locktime.{Bitcoin}
use rust_miniscript.Types.Fragment.{type_false}
use rust_miniscript.Ext.Data.{ext_false}
use rust_miniscript.Miniscript.Ast.{
  MiniscriptKey, Terminal, Miniscript, miniscript, Subs, nil, cons,
}
use rust_miniscript.Iter.Tree.{Tree, TreeLike}
use rust_miniscript.Iter.Tree.Children.{children_of, tabulate}
use rust_miniscript.Iter.Tree.PostOrder.{Finite, AllFinite}

module _ {B : Bitcoin} {K : MiniscriptKey} where
  abbrev pub nary_len : Subs B K → ℕ
  nary_len nil = 0
  nary_len (cons s ss) = suc (nary_len ss)

  -- The source panics where the index is out of range, which `nth_child` never asks for; here is some
  -- node there.
  abbrev pub nary_index : Subs B K → ℕ → Miniscript B K
  nary_index nil i = miniscript Terminal.false type_false ext_false
  nary_index (cons s ss) zero = s
  nary_index (cons s ss) (suc i) = nary_index ss i

  abbrev pub terminal_as_node : Terminal B K → Tree (Miniscript B K) (Subs B K)
  terminal_as_node (Terminal.inscribe_pre i sub) = Tree.unary sub
  terminal_as_node (Terminal.inscribe_post i sub) = Tree.unary sub
  terminal_as_node (Terminal.alt sub) = Tree.unary sub
  terminal_as_node (Terminal.swap sub) = Tree.unary sub
  terminal_as_node (Terminal.check sub) = Tree.unary sub
  terminal_as_node (Terminal.dup_if sub) = Tree.unary sub
  terminal_as_node (Terminal.verify sub) = Tree.unary sub
  terminal_as_node (Terminal.non_zero sub) = Tree.unary sub
  terminal_as_node (Terminal.zero_not_equal sub) = Tree.unary sub
  terminal_as_node (Terminal.and_v left right) = Tree.binary left right
  terminal_as_node (Terminal.and_b left right) = Tree.binary left right
  terminal_as_node (Terminal.or_b left right) = Tree.binary left right
  terminal_as_node (Terminal.or_d left right) = Tree.binary left right
  terminal_as_node (Terminal.or_c left right) = Tree.binary left right
  terminal_as_node (Terminal.or_i left right) = Tree.binary left right
  terminal_as_node (Terminal.and_or a b c) = Tree.ternary a b c
  terminal_as_node (Terminal.thresh k subs) = Tree.nary subs
  terminal_as_node _ = Tree.nullary

  abbrev pub as_node : Miniscript B K → Tree (Miniscript B K) (Subs B K)
  as_node (miniscript n t e) = terminal_as_node n

-- The implementation of `TreeLike` for references to miniscripts.
abbrev pub miniscripts : Bitcoin → MiniscriptKey → TreeLike
miniscripts B K = record {
  Node = Miniscript B K;
  NaryChildren = Subs B K;
  nary_len = nary_len;
  nary_index = nary_index;
  as_node = as_node;
}

module _ (B : Bitcoin) (K : MiniscriptKey) where
  abbrev Walked : Miniscript B K → Type 0
  Walked ms = Finite (miniscripts B K) ms

  abbrev WalkedAll : List (Miniscript B K) → Type 0
  WalkedAll ts = AllFinite (miniscripts B K) ts

  one_finite : (s : Miniscript B K) → Walked s → WalkedAll (s ∷ [])
  one_finite s f = AllFinite.cons f AllFinite.nil

  two_finite : (l r : Miniscript B K) → Walked l → Walked r → WalkedAll (l ∷ r ∷ [])
  two_finite l r f g = AllFinite.cons f (one_finite r g)

  mutual
    pub miniscript-Finite : (ms : Miniscript B K) → Walked ms
    miniscript-Finite (miniscript n t e) = Finite.finite {t = miniscript n t e} (terminal-Finite n)

    terminal-Finite :
        (n : Terminal B K) → WalkedAll (children_of (miniscripts B K) (terminal_as_node n))
    terminal-Finite (Terminal.inscribe_pre i s) = one_finite s (miniscript-Finite s)
    terminal-Finite (Terminal.inscribe_post i s) = one_finite s (miniscript-Finite s)
    terminal-Finite (Terminal.alt s) = one_finite s (miniscript-Finite s)
    terminal-Finite (Terminal.swap s) = one_finite s (miniscript-Finite s)
    terminal-Finite (Terminal.check s) = one_finite s (miniscript-Finite s)
    terminal-Finite (Terminal.dup_if s) = one_finite s (miniscript-Finite s)
    terminal-Finite (Terminal.verify s) = one_finite s (miniscript-Finite s)
    terminal-Finite (Terminal.non_zero s) = one_finite s (miniscript-Finite s)
    terminal-Finite (Terminal.zero_not_equal s) = one_finite s (miniscript-Finite s)
    terminal-Finite (Terminal.and_v l r) =
        two_finite l r (miniscript-Finite l) (miniscript-Finite r)
    terminal-Finite (Terminal.and_b l r) =
        two_finite l r (miniscript-Finite l) (miniscript-Finite r)
    terminal-Finite (Terminal.or_b l r) = two_finite l r (miniscript-Finite l) (miniscript-Finite r)
    terminal-Finite (Terminal.or_d l r) = two_finite l r (miniscript-Finite l) (miniscript-Finite r)
    terminal-Finite (Terminal.or_c l r) = two_finite l r (miniscript-Finite l) (miniscript-Finite r)
    terminal-Finite (Terminal.or_i l r) = two_finite l r (miniscript-Finite l) (miniscript-Finite r)
    terminal-Finite (Terminal.and_or x y z) =
        AllFinite.cons (miniscript-Finite x)
          (two_finite y z (miniscript-Finite y) (miniscript-Finite z))
    terminal-Finite (Terminal.thresh k ss) = subs-AllFinite ss
    terminal-Finite _ = AllFinite.nil

    subs-AllFinite : (ss : Subs B K) → WalkedAll (tabulate (nary_index ss) (nary_len ss))
    subs-AllFinite nil = AllFinite.nil
    subs-AllFinite (cons s ss) = AllFinite.cons (miniscript-Finite s) (subs-AllFinite ss)
