-- ===== src/Descriptor/TapTree.antt =====
-- `TapTree` of src/descriptor/tr/taptree.rs: its leaves with their depths, and its display. The number
-- of nodes that a control block may have is the bitcoin crate's, and an argument.
pub mod Depth
pub mod Display
use rust_miniscript.Prelude.{
  ℕ, zero, suc, ◌+◌, ◌-◌, Bool, ltb, List, [], ◌∷◌, ◌++◌, Result, ok, err, ◌>>=◌, if◌then◌else◌,
}

pub data TapTreeDepthError : Type 0 where
  tap_tree_depth_error : TapTreeDepthError

pub record TapTree (A : Type 0) : Type 0 where
  pub depths_leaves : List (ℕ × A)

abbrev pub Text : Type 0
Text = List ℕ

-- `n` times the same character.
abbrev pub repeat : ℕ → ℕ → Text
repeat zero ch = []
repeat (suc n) ch = ch ∷ repeat n ch

abbrev pub comma : ℕ → Text
comma zero = []
comma (suc last_depth) = b',' ∷ []

module _ {A : Type 0} where
  unfoldable pub leaf : A → TapTree A
  leaf ms = record { depths_leaves = (0, ms) ∷ [] }

  -- The loop of `combine`, which puts each leaf one level deeper.
  unfoldable pub deepen : ℕ → List (ℕ × A) → Result TapTreeDepthError (List (ℕ × A))
  deepen max_node_count [] = ok []
  deepen max_node_count (x ∷ xs) =
      let rest = deepen max_node_count xs in
      if ltb (max_node_count - 1) x.0
      then err TapTreeDepthError.tap_tree_depth_error
      else (do ys ← rest; ok ((x.0 + 1, x.1) ∷ ys))

  unfoldable pub combine : ℕ → TapTree A → TapTree A → Result TapTreeDepthError (TapTree A)
  unfolding deepen
  combine max_node_count left right = do
    depths_leaves ← deepen max_node_count (left.depths_leaves ++ right.depths_leaves)
    ok (record { depths_leaves = depths_leaves })

  module _ (fmt_ms : A → Text) where
    -- The loops of `fmt_helper`. The first inner loop counts `last_depth` up to the depth of the leaf,
    -- and the second one down to it.
    unfoldable pub fmt_leaves : ℕ → List (ℕ × A) → Text
    fmt_leaves last_depth [] = repeat last_depth b'}'
    fmt_leaves last_depth (x ∷ xs) =
        comma last_depth
        ++ (repeat (x.0 - last_depth) b'{'
            ++ (fmt_ms x.1 ++ (repeat (last_depth - x.0) b'}' ++ fmt_leaves x.0 xs)))

    unfoldable pub fmt_helper : TapTree A → Text
    unfolding fmt_leaves
    fmt_helper view = fmt_leaves 0 view.depths_leaves
