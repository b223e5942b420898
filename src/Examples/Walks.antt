-- ===== src/Examples/Walks.antt =====
-- The theorems on walks at `thresh(2,pk(1),s:pk(2),s:pk(103))`.
use rust_miniscript.Prelude.{ℕ, ◌+◌, map, ok, ◌>>=◌, ◌≡◌}
use rust_miniscript.Miniscript.Ast.{node}
use rust_miniscript.Iter.Tree.{items, post_order_iter, rtl_items}
use rust_miniscript.Iter.Tree.PostOrder.{post_order, items-post_order}
use rust_miniscript.Iter.Nodes.{miniscripts, miniscript-Finite}
use rust_miniscript.Iter.Nodes.Rtl.{rtl_items-rtl_post_order}
use rust_miniscript.Policy.Lift.{rtl_post_order}
use rust_miniscript.Examples.Setting.{numbers, key_numbers}
use rust_miniscript.Examples.Scripts.{two_of_three}

items-post_order_example :
    (n : ℕ) × ((fuel : ℕ)
      → items
          (miniscripts numbers key_numbers)
          (n + fuel)
          (post_order_iter (miniscripts numbers key_numbers) two_of_three)
        ≡ ok
            (post_order
              (miniscripts numbers key_numbers)
              (miniscript-Finite numbers key_numbers two_of_three)
              0).0)
items-post_order_example =
    items-post_order (miniscripts numbers key_numbers)
      (miniscript-Finite numbers key_numbers two_of_three)

rtl_items-rtl_post_order_example :
    (n : ℕ) × ((fuel : ℕ)
      → (do
        xs ← rtl_items (miniscripts numbers key_numbers) (n + fuel) two_of_three
        ok (map (λ x. node x.node) xs))
        ≡ ok (rtl_post_order two_of_three))
rtl_items-rtl_post_order_example = rtl_items-rtl_post_order numbers key_numbers two_of_three
