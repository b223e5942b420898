-- ===== src/Miniscript/Build/Height.antt =====
-- `tree_height` of src/miniscript/types/extra_props.rs and the height of the tree.
use rust_miniscript.Prelude.{
  ℕ, ◌+◌, ◌≤◌, max, ◌≡◌, refl, List, [], ◌∷◌, length, Option, arith, ◌∙◌, ap,
}
use rust_miniscript.Primitives.Locktime.{Bitcoin}
use rust_miniscript.Ext.Data.{ExtData, SatData, zip_with}
use rust_miniscript.Ext.Leaves
use rust_miniscript.Ext.Leaves.{SigType}
use rust_miniscript.Ext.Wrappers
use rust_miniscript.Ext.Combinators
use rust_miniscript.Ext.Combinators.{concat_after}
use rust_miniscript.Ext.Threshold
use rust_miniscript.Miniscript.Ast.{
  MiniscriptKey, Inscription, Terminal, Miniscript, miniscript, Subs, nil, cons, ext, exts,
}
use rust_miniscript.Miniscript.Check.{ext_check, inscribing}
use rust_miniscript.Miniscript.Context.{Context, sig_type}
use rust_miniscript.Miniscript.Build.{
  Everywhere, EveryChild, EverySub, IsBuilt, Checked, max_recursion_depth,
}
use rust_miniscript.Miniscript.Build.Annotated.{IsBuilt-Accepted, Accepted}

-- The number of edges on the longest way down.
unfoldable mutual
  pub height : {B : Bitcoin} {K : MiniscriptKey} → Miniscript B K → ℕ
  height (miniscript n t e) = node_height n

  pub node_height : {B : Bitcoin} {K : MiniscriptKey} → Terminal B K → ℕ
  node_height (Terminal.inscribe_pre i s) = height s + 1
  node_height (Terminal.inscribe_post i s) = height s + 1
  node_height (Terminal.alt s) = height s + 1
  node_height (Terminal.swap s) = height s + 1
  node_height (Terminal.check s) = height s + 1
  node_height (Terminal.dup_if s) = height s + 1
  node_height (Terminal.verify s) = height s + 1
  node_height (Terminal.non_zero s) = height s + 1
  node_height (Terminal.zero_not_equal s) = height s + 1
  node_height (Terminal.and_v l r) = max (height l) (height r) + 1
  node_height (Terminal.and_b l r) = max (height l) (height r) + 1
  node_height (Terminal.and_or x y z) = max (height x) (max (height y) (height z)) + 1
  node_height (Terminal.or_b l r) = max (height l) (height r) + 1
  node_height (Terminal.or_d l r) = max (height l) (height r) + 1
  node_height (Terminal.or_c l r) = max (height l) (height r) + 1
  node_height (Terminal.or_i l r) = max (height l) (height r) + 1
  node_height (Terminal.thresh k ss) = subs_height ss + 1
  node_height _ = 0

  pub subs_height : {B : Bitcoin} {K : MiniscriptKey} → Subs B K → ℕ
  subs_height nil = 0
  subs_height (cons s ss) = max (height s) (subs_height ss)

abbrev max_heights : List ExtData → ℕ
max_heights [] = 0
max_heights (e ∷ es) = max e.tree_height (max_heights es)

totals-max_child_height :
    (p : ℕ) (d : Option SatData) (es : List ExtData)
    → (Threshold.totals p d es).max_child_height ≡ max_heights es
unfolding Threshold.totals
totals-max_child_height p d [] = refl
totals-max_child_height p d (e ∷ es) =
    ap (max e.tree_height)
      (totals-max_child_height (p + e.pk_cost) (zip_with concat_after d e.dissat_data) es)

threshold-tree_height :
    (k n : ℕ) (es : List ExtData) → (Threshold.threshold k n es).tree_height ≡ max_heights es + 1
unfolding Threshold.threshold
threshold-tree_height k n es = ap (λ h. h + 1) (totals-max_child_height _ _ es)

module _ {B : Bitcoin} {K : MiniscriptKey} (size : Inscription → ℕ) (c : Context) where
  -- The recorded height is the height, and at most `MAX_RECURSION_DEPTH`; the cast to 32 bits in
  -- the test loses nothing.
  mutual
    unfolding height ext_check inscribing Leaves.pk_k Leaves.pk_h Leaves.multi Leaves.multi_a
        Leaves.after Leaves.older Wrappers.cast_alt Wrappers.cast_swap Wrappers.cast_check
        Wrappers.cast_dupif Wrappers.cast_verify Wrappers.cast_nonzero Wrappers.cast_zeronotequal
        Combinators.and_b Combinators.and_v Combinators.or_b Combinators.or_d Combinators.or_c
        Combinators.or_i Combinators.and_or

    bounded :
        (ms : Miniscript B K)
        → Everywhere (Accepted size c) ms
        → ((ext ms).tree_height ≡ height ms) × (height ms ≤ 402)
    bounded (miniscript n t e) h =
        let (eq, le) = node_bounded n h.1 in
        let same = ap (λ (x : ExtData). x.tree_height) (Checked.ext (Accepted.checked h.0)) ∙ eq in
        (same, omega (arith, same, le, Accepted.height h.0))

    node_bounded :
        (n : Terminal B K)
        → EveryChild (Accepted size c) n
        → ((ext_check size (sig_type c) n).tree_height ≡ node_height n) × (node_height n ≤ 403)
    node_bounded (Terminal.inscribe_pre i s) h = omega (arith, bounded s h)
    node_bounded (Terminal.inscribe_post i s) h = omega (arith, bounded s h)
    node_bounded (Terminal.alt s) h = omega (arith, bounded s h)
    node_bounded (Terminal.swap s) h = omega (arith, bounded s h)
    node_bounded (Terminal.check s) h = omega (arith, bounded s h)
    node_bounded (Terminal.dup_if s) h = omega (arith, bounded s h)
    node_bounded (Terminal.verify s) h = omega (arith, bounded s h)
    node_bounded (Terminal.non_zero s) h = omega (arith, bounded s h)
    node_bounded (Terminal.zero_not_equal s) h = omega (arith, bounded s h)
    node_bounded (Terminal.and_v l r) h = omega (arith, bounded l h.0, bounded r h.1)
    node_bounded (Terminal.and_b l r) h = omega (arith, bounded l h.0, bounded r h.1)
    node_bounded (Terminal.and_or x y z) h =
        omega (arith, bounded x h.0, bounded y h.1, bounded z h.2)
    node_bounded (Terminal.or_b l r) h = omega (arith, bounded l h.0, bounded r h.1)
    node_bounded (Terminal.or_d l r) h = omega (arith, bounded l h.0, bounded r h.1)
    node_bounded (Terminal.or_c l r) h = omega (arith, bounded l h.0, bounded r h.1)
    node_bounded (Terminal.or_i l r) h = omega (arith, bounded l h.0, bounded r h.1)
    node_bounded (Terminal.thresh k ss) h =
        omega (arith, children_bounded ss h.2, threshold-tree_height k (length (exts ss)) (exts ss))
    node_bounded _ h = omega arith

    children_bounded :
        (ss : Subs B K)
        → EverySub (Accepted size c) ss
        → (max_heights (exts ss) ≡ subs_height ss) × (subs_height ss ≤ 402)
    children_bounded nil h = omega arith
    children_bounded (cons s ss) h = omega (arith, bounded s h.0, children_bounded ss h.1)

  -- The recorded height of a tree that `from_ast` builds is its height, which is at most
  -- `MAX_RECURSION_DEPTH`.
  pub tree_height-bounded :
      (ms : Miniscript B K)
      → IsBuilt size c ms
      → ((ext ms).tree_height ≡ height ms) × (height ms ≤ max_recursion_depth)
  tree_height-bounded ms h = bounded ms (IsBuilt-Accepted size c ms h)
