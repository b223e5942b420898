-- ===== src/Examples/TapTrees.antt =====
-- The theorems on Taproot trees at trees of three leaves.
use rust_miniscript.Prelude.{ℕ, leb, [], ◌∷◌, ok, err, if◌then◌else◌, ◌≡◌, arith}
use rust_miniscript.Descriptor.TapTree.{Text, TapTreeDepthError, fmt_helper}
use rust_miniscript.Descriptor.TapTree.Depth.{Branching, height, depths, built, built-depths}
use rust_miniscript.Descriptor.TapTree.Display.{notation, fmt_helper-notation}

-- `{a,{b,c}}` and `{{a,b},c}`.
abbrev right_tree : Branching ℕ
right_tree =
    Branching.fork (Branching.tip b'a') (Branching.fork (Branching.tip b'b') (Branching.tip b'c'))

abbrev left_tree : Branching ℕ
left_tree =
    Branching.fork (Branching.fork (Branching.tip b'a') (Branching.tip b'b')) (Branching.tip b'c')

abbrev letter : ℕ → Text
letter ch = ch ∷ []

built-depths_example : built 128 left_tree ≡ (
    if leb (height left_tree) 128
    then ok (record { depths_leaves = depths 0 left_tree })
    else err TapTreeDepthError.tap_tree_depth_error)
built-depths_example = built-depths 128 left_tree (omega arith)

fmt_helper-notation_example :
    fmt_helper letter (record { depths_leaves = depths 0 right_tree }) ≡ notation letter right_tree
fmt_helper-notation_example = fmt_helper-notation letter right_tree tt
