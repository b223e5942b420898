-- ===== src/Iter/Nodes/Rtl.antt =====
-- The right-to-left post order of a miniscript, against the order in which `lift` of src/policy/mod.rs
-- is modelled to meet the nodes.
use rust_miniscript.Prelude.{
  ℕ, zero, suc, ◌+◌, ◌-◌, List, [], ◌∷◌, ◌++◌, map, ok, ◌>>=◌, ◌≡◌, refl, sym, ap, ap₂, subst, ◌∙◌,
  arith,
}
use rust_miniscript.Primitives.Locktime.{Bitcoin}
use rust_miniscript.Miniscript.Ast.{
  MiniscriptKey, Terminal, Miniscript, miniscript, Subs, nil, cons, node,
}
use rust_miniscript.Iter.Tree.{Tree, TreeLike, PostOrderIterItem, rtl, swapped, rtl_item, rtl_items}
use rust_miniscript.Iter.Tree.Children.{children, children_of, tabulate, append_assoc, map-append}
use rust_miniscript.Iter.Tree.PostOrder.{
  Finite, AllFinite, post_order, post_orders, items-post_order,
}
use rust_miniscript.Iter.Nodes.{miniscripts, nary_len, nary_index, terminal_as_node}
use rust_miniscript.Policy.Lift.{rtl_post_order, rtl_children, rtl_subs}

tabulate_same :
    {A : Type 0} (f g : ℕ → A) (n : ℕ) → ((i : ℕ) → f i ≡ g i) → tabulate f n ≡ tabulate g n
tabulate_same f g zero h = refl
tabulate_same f g (suc n) h =
    ap₂ (λ x xs. x ∷ xs) (h 0) (tabulate_same (λ i. f (suc i)) (λ i. g (suc i)) n (λ i. h (suc i)))

-- The values below `n`, from the highest down.
abbrev down : {A : Type 0} → (ℕ → A) → ℕ → List A
down f zero = []
down f (suc n) = f n ∷ down f n

tabulate-down : {A : Type 0} (f : ℕ → A) (n : ℕ) → tabulate (λ i. f (n - i - 1)) n ≡ down f n
tabulate-down f zero = refl
tabulate-down f (suc n) =
    ap₂ (λ x xs. x ∷ xs) (ap f (omega arith))
      (tabulate_same (λ i. f (suc n - suc i - 1)) (λ i. f (n - i - 1)) n (λ i. ap f (omega arith))
        ∙ tabulate-down f n)

down_shift :
    {A : Type 0} (f : ℕ → A) (n : ℕ) → down f (suc n) ≡ down (λ i. f (suc i)) n ++ (f 0 ∷ [])
down_shift f zero = refl
down_shift f (suc n) = ap (λ r. f (suc n) ∷ r) (down_shift f n)

module _ (B : Bitcoin) (K : MiniscriptKey) where
  abbrev right_to_left : TreeLike
  right_to_left = rtl (miniscripts B K)

  abbrev terminals : List (PostOrderIterItem right_to_left) → List (Terminal B K)
  terminals xs = map (λ x. node x.node) xs

  -- A finite tree, or several, and the terminals in the order of the walk.
  abbrev Walk : Miniscript B K → List (Terminal B K) → Type 0
  Walk t ns =
      (f : Finite right_to_left t) × ((i : ℕ) → terminals (post_order right_to_left f i).0 ≡ ns)

  abbrev Walks : List (Miniscript B K) → List (Terminal B K) → Type 0
  Walks ts ns =
      (f : AllFinite right_to_left ts) × ((i : ℕ)
        → terminals (post_orders right_to_left f i).0 ≡ ns)

  Walks-nil : Walks [] []
  unfolding post_order
  Walks-nil = (AllFinite.nil, (λ i. refl))

  Walks-cons :
      (t : Miniscript B K) (ts : List (Miniscript B K)) (ns ms : List (Terminal B K))
      → Walk t ns
      → Walks ts ms
      → Walks (t ∷ ts) (ns ++ ms)
  unfolding post_order
  Walks-cons t ts ns ms (f, g) (fs, gs) = (
    AllFinite.cons f fs,
    (λ i.
        map-append (λ x. node x.node) (post_order right_to_left f i).0
          (post_orders right_to_left fs ((post_order right_to_left f i).1 + 1)).0
        ∙ ap₂ (λ x y. x ++ y) (g i) (gs ((post_order right_to_left f i).1 + 1))),
  )

  Walk-node :
      (t : Miniscript B K) (ns : List (Terminal B K))
      → Walks (children right_to_left t) ns
      → Walk t (ns ++ (node t ∷ []))
  unfolding post_order
  Walk-node t ns (fs, gs) = (
    Finite.finite {t = t} fs,
    (λ i.
        map-append (λ x. node x.node) (post_orders right_to_left fs i).0
          (record {
            node = t;
            index = (post_orders right_to_left fs i).2;
            child_indices = (post_orders right_to_left fs i).1;
          }
            ∷ [])
        ∙ ap (λ r. r ++ (node t ∷ [])) (gs i)),
  )

  nil_right : (ns : List (Terminal B K)) → ns ++ [] ≡ ns
  nil_right [] = refl
  nil_right (n ∷ ns) = ap (λ r. n ∷ r) (nil_right ns)

  nodes_nil_right : (ts : List (Miniscript B K)) → ts ++ [] ≡ ts
  nodes_nil_right [] = refl
  nodes_nil_right (t ∷ ts) = ap (λ r. t ∷ r) (nodes_nil_right ts)

  abbrev as_swapped : Terminal B K → Tree (Miniscript B K) (Subs B K)
  as_swapped n = swapped (terminal_as_node n)

  Walks-one : (s : Miniscript B K) (ns : List (Terminal B K)) → Walk s ns → Walks (s ∷ []) ns
  Walks-one s ns w =
      subst (λ r. Walks (s ∷ []) r) (nil_right ns) (Walks-cons s [] ns [] w Walks-nil)

  Walks-two :
      (l r : Miniscript B K) (ns ms : List (Terminal B K))
      → Walk r ns
      → Walk l ms
      → Walks (r ∷ l ∷ []) (ns ++ ms)
  Walks-two l r ns ms v w = Walks-cons r (l ∷ []) ns ms v (Walks-one l ms w)

  abbrev onto : Subs B K → List (Miniscript B K) → List (Miniscript B K)
  onto nil acc = acc
  onto (cons s ss) acc = onto ss (s ∷ acc)

  down-onto :
      (ss : Subs B K) (acc : List (Miniscript B K))
      → down (nary_index ss) (nary_len ss) ++ acc ≡ onto ss acc
  down-onto nil acc = refl
  down-onto (cons s ss) acc =
      ap (λ r. r ++ acc) (down_shift (nary_index (cons s ss)) (nary_len ss))
      ∙ append_assoc (down (nary_index ss) (nary_len ss)) (s ∷ []) acc
      ∙ down-onto ss (s ∷ acc)

  mutual
    unfolding rtl_post_order

    rtl_post_order-Walk : (ms : Miniscript B K) → Walk ms (rtl_post_order ms)
    rtl_post_order-Walk (miniscript n t e) =
        Walk-node (miniscript n t e) (rtl_children n) (rtl_children-Walks n)

    rtl_children-Walks :
        (n : Terminal B K) → Walks (children_of right_to_left (as_swapped n)) (rtl_children n)
    rtl_children-Walks (Terminal.inscribe_pre i s) =
        Walks-one s (rtl_post_order s) (rtl_post_order-Walk s)
    rtl_children-Walks (Terminal.inscribe_post i s) =
        Walks-one s (rtl_post_order s) (rtl_post_order-Walk s)
    rtl_children-Walks (Terminal.alt s) = Walks-one s (rtl_post_order s) (rtl_post_order-Walk s)
    rtl_children-Walks (Terminal.swap s) = Walks-one s (rtl_post_order s) (rtl_post_order-Walk s)
    rtl_children-Walks (Terminal.check s) = Walks-one s (rtl_post_order s) (rtl_post_order-Walk s)
    rtl_children-Walks (Terminal.dup_if s) = Walks-one s (rtl_post_order s) (rtl_post_order-Walk s)
    rtl_children-Walks (Terminal.verify s) = Walks-one s (rtl_post_order s) (rtl_post_order-Walk s)
    rtl_children-Walks (Terminal.non_zero s) =
        Walks-one s (rtl_post_order s) (rtl_post_order-Walk s)
    rtl_children-Walks (Terminal.zero_not_equal s) =
        Walks-one s (rtl_post_order s) (rtl_post_order-Walk s)
    rtl_children-Walks (Terminal.and_v l r) =
        Walks-two l r (rtl_post_order r) (rtl_post_order l) (rtl_post_order-Walk r)
          (rtl_post_order-Walk l)
    rtl_children-Walks (Terminal.and_b l r) =
        Walks-two l r (rtl_post_order r) (rtl_post_order l) (rtl_post_order-Walk r)
          (rtl_post_order-Walk l)
    rtl_children-Walks (Terminal.or_b l r) =
        Walks-two l r (rtl_post_order r) (rtl_post_order l) (rtl_post_order-Walk r)
          (rtl_post_order-Walk l)
    rtl_children-Walks (Terminal.or_d l r) =
        Walks-two l r (rtl_post_order r) (rtl_post_order l) (rtl_post_order-Walk r)
          (rtl_post_order-Walk l)
    rtl_children-Walks (Terminal.or_c l r) =
        Walks-two l r (rtl_post_order r) (rtl_post_order l) (rtl_post_order-Walk r)
          (rtl_post_order-Walk l)
    rtl_children-Walks (Terminal.or_i l r) =
        Walks-two l r (rtl_post_order r) (rtl_post_order l) (rtl_post_order-Walk r)
          (rtl_post_order-Walk l)
    rtl_children-Walks (Terminal.and_or x y z) =
        Walks-cons z (y ∷ x ∷ []) (rtl_post_order z) (rtl_post_order y ++ rtl_post_order x)
          (rtl_post_order-Walk z)
          (Walks-two x y (rtl_post_order y) (rtl_post_order x) (rtl_post_order-Walk y)
            (rtl_post_order-Walk x))
    rtl_children-Walks (Terminal.thresh k ss) =
        subst (λ ts. Walks ts (rtl_subs ss))
          (sym (
            tabulate-down (nary_index ss) (nary_len ss)
            ∙ sym (nodes_nil_right (down (nary_index ss) (nary_len ss)))
            ∙ down-onto ss []))
          (subst (λ r. Walks (onto ss []) r) (nil_right (rtl_subs ss))
            (rtl_subs-Walks ss [] [] Walks-nil))
    rtl_children-Walks _ = Walks-nil

    rtl_subs-Walks :
        (ss : Subs B K) (acc : List (Miniscript B K)) (ns : List (Terminal B K))
        → Walks acc ns
        → Walks (onto ss acc) (rtl_subs ss ++ ns)
    rtl_subs-Walks nil acc ns w = w
    rtl_subs-Walks (cons s ss) acc ns w =
        subst (λ r. Walks (onto ss (s ∷ acc)) r)
          (sym (append_assoc (rtl_subs ss) (rtl_post_order s) ns))
          (rtl_subs-Walks ss (s ∷ acc) (rtl_post_order s ++ ns)
            (Walks-cons s acc (rtl_post_order s) ns (rtl_post_order-Walk s) w))

  item_terminals :
      (xs : List (PostOrderIterItem right_to_left))
      → map (λ x. node x.node) (map (rtl_item (miniscripts B K)) xs) ≡ terminals xs
  item_terminals [] = refl
  item_terminals (x ∷ xs) = ap (λ r. node x.node ∷ r) (item_terminals xs)

  -- Enough fuel, and any more, gives all items of `rtl_post_order_iter` on a miniscript, and their nodes
  -- are those of the tree in the order (right child, left child, parent).
  pub rtl_items-rtl_post_order :
      (ms : Miniscript B K)
      → (n : ℕ) × ((fuel : ℕ)
          → (do xs ← rtl_items (miniscripts B K) (n + fuel) ms; ok (map (λ x. node x.node) xs))
            ≡ ok (rtl_post_order ms))
  unfolding rtl_items
  rtl_items-rtl_post_order ms =
      let (f, walked) = rtl_post_order-Walk ms in
      let (n, enough) = items-post_order right_to_left f in
      (
        n,
        (λ fuel.
            rw (enough fuel) (ap ok (item_terminals (post_order right_to_left f 0).0 ∙ walked 0))),
      )
