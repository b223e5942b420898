-- ===== src/Iter/Tree/PostOrder.antt =====
-- The order in which `PostOrderIter` of src/iter/tree.rs yields the nodes of a tree, with their indices.
use rust_miniscript.Prelude.{
  ℕ, suc, ◌+◌, true, Option, none, some, List, [], ◌∷◌, ◌++◌, length, Result, ok, err, ◌>>=◌, ◌≡◌,
  refl, sym, ap, subst, ◌∙◌, arith,
}
use rust_miniscript.Iter.Tree.{
  TreeLike, Stop, IterStackItem, PostOrderIterItem, PostOrderIter, Step, unprocessed, push_index,
  push_parent, next_step, items, post_order_iter,
}
use rust_miniscript.Iter.Tree.Children.{
  children, entries, push_children-entries, push_at-below, append_assoc,
}

bind_ok : {A : Type 0} (r : Result Stop A) → r ≡ (do a ← r; ok a)
bind_ok (err e) = refl
bind_ok (ok a) = refl

bind_append :
    {A : Type 0} (r : Result Stop (List A)) (xs ys : List A)
    → (do zs ← (do ws ← r; ok (ys ++ ws)); ok (xs ++ zs)) ≡ (do ws ← r; ok ((xs ++ ys) ++ ws))
bind_append (err e) xs ys = refl
bind_append (ok ws) xs ys = ap ok (sym (append_assoc xs ys ws))

append_nil : {A : Type 0} (xs : List A) → xs ++ [] ≡ xs
append_nil [] = refl
append_nil (x ∷ xs) = ap (λ r. x ∷ r) (append_nil xs)

assoc_fuel : (n m fuel : ℕ) → n + m + fuel ≡ n + (m + fuel)
assoc_fuel n m fuel = omega arith

one_fuel : (fuel : ℕ) → 1 + fuel ≡ suc fuel
one_fuel fuel = omega arith

no_fuel : (fuel : ℕ) → 0 + fuel ≡ fuel
no_fuel fuel = omega arith

module _ (L : TreeLike) where
  -- The nodes with a finite tree below them.
  mutual
    pub data Finite : L.Node → Type 0 where
      finite : {t : L.Node} → AllFinite (children L t) → Finite t

    pub data AllFinite : List L.Node → Type 0 where
      nil : AllFinite []
      cons : {t : L.Node} {ts : List L.Node} → Finite t → AllFinite ts → AllFinite (t ∷ ts)

  -- The items of a tree whose first one has the index `i`, up to the root's, and the index of the root's;
  -- and those of several trees one after the other, with the indices of the roots and the next index.
  unfoldable mutual
    pub post_order : {t : L.Node} → Finite t → ℕ → List (PostOrderIterItem L) × ℕ
    post_order {t} (Finite.finite fs) i =
        let below = post_orders fs i in
        (below.0 ++ (record { node = t; index = below.2; child_indices = below.1 } ∷ []), below.2)

    pub post_orders :
        {ts : List L.Node} → AllFinite ts → ℕ → List (PostOrderIterItem L) × List ℕ × ℕ
    post_orders AllFinite.nil i = ([], [], i)
    post_orders (AllFinite.cons f fs) i =
        let first = post_order f i in
        let rest = post_orders fs (first.1 + 1) in (first.0 ++ rest.0, first.1 ∷ rest.1, rest.2)

  abbrev at : ℕ → List (IterStackItem L) → PostOrderIter L
  at i stack = record { index = i; stack = stack }

  -- On enough fuel, the items from the first state are `xs` and then those from the second.
  abbrev Reaches : PostOrderIter L → List (PostOrderIterItem L) → PostOrderIter L → Type 0
  Reaches it xs jt =
      (n : ℕ) × ((fuel : ℕ) → items L (n + fuel) it ≡ (do ys ← items L fuel jt; ok (xs ++ ys)))

  reach_trans :
      (it jt kt : PostOrderIter L) (xs ys : List (PostOrderIterItem L))
      → Reaches it xs jt
      → Reaches jt ys kt
      → Reaches it (xs ++ ys) kt
  reach_trans it jt kt xs ys (n, f) (m, g) = (
    n + m,
    (λ fuel.
        ap (λ k. items L k it) (assoc_fuel n m fuel)
        ∙ f (m + fuel)
        ∙ rw (g fuel) (bind_append (items L fuel kt) xs ys)),
  )

  reach_again : (it jt : PostOrderIter L) → next_step L it ≡ ok (Step.again jt) → Reaches it [] jt
  unfolding items
  reach_again it jt h =
      (1, (λ fuel. ap (λ k. items L k it) (one_fuel fuel) ∙ rw h (bind_ok (items L fuel jt))))

  reach_yielded :
      (it jt : PostOrderIter L) (x : PostOrderIterItem L)
      → next_step L it ≡ ok (Step.yielded x jt)
      → Reaches it (x ∷ []) jt
  unfolding items
  reach_yielded it jt x h = (1, (λ fuel. ap (λ k. items L k it) (one_fuel fuel) ∙ rw h refl))

  reach_refl : (it : PostOrderIter L) → Reaches it [] it
  reach_refl it = (0, (λ fuel. ap (λ k. items L k it) (no_fuel fuel) ∙ bind_ok (items L fuel it)))

  abbrev with_indices : IterStackItem L → List ℕ → IterStackItem L
  with_indices x [] = x
  with_indices x (i ∷ is) = with_indices (push_index L i x) is

  with_indices-append :
      (t : L.Node) (parent : Option ℕ) (old is : List ℕ)
      → with_indices
          (record { elem = t; processed = true; child_indices = old; parent_stack_idx = parent })
          is
        ≡ record {
          elem = t;
          processed = true;
          child_indices = old ++ is;
          parent_stack_idx = parent;
        }
  with_indices-append t parent old [] =
      ap (λ r. record { elem = t; processed = true; child_indices = r; parent_stack_idx = parent })
        (sym (append_nil old))
  with_indices-append t parent old (i ∷ is) =
      with_indices-append t parent (old ++ (i ∷ [])) is
      ∙ ap
          (λ r. record { elem = t; processed = true; child_indices = r; parent_stack_idx = parent })
          (append_assoc old (i ∷ []) is)

  abbrev entered : L.Node → Option ℕ → List ℕ → IterStackItem L
  entered t parent is = record {
    elem = t;
    processed = true;
    child_indices = is;
    parent_stack_idx = parent;
  }

  -- The first and the second encounter of a node.
  next_step-unprocessed :
      (t : L.Node) (parent : Option ℕ) (i : ℕ) (below : List (IterStackItem L))
      → next_step L (at i (unprocessed L t parent ∷ below))
        ≡ ok (
            Step.again
              (at i (entries L (length below) (children L t) ++ entered t parent [] ∷ below)))
  unfolding next_step
  next_step-unprocessed t parent i below =
      rw (push_children-entries L t (length below) (entered t parent [] ∷ below)) refl

  next_step-processed :
      (t : L.Node) (parent : Option ℕ) (i : ℕ) (is : List ℕ) (below after : List (IterStackItem L))
      → push_parent L i parent below ≡ ok after
      → next_step L (at i (entered t parent is ∷ below))
        ≡ ok (Step.yielded (record { node = t; index = i; child_indices = is }) (at (i + 1) after))
  unfolding next_step
  next_step-processed t parent i is below after h = rw h refl

  -- A node is entered, its children are walked over, and it is yielded.
  tree_steps :
      (t : L.Node) (i : ℕ) (parent : Option ℕ) (below after : List (IterStackItem L))
      (xs : List (PostOrderIterItem L)) (is : List ℕ) (j : ℕ)
      → push_parent L j parent below ≡ ok after
      → Reaches
          (at i (entries L (length below) (children L t) ++ entered t parent [] ∷ below))
          xs
          (at j (with_indices (entered t parent []) is ∷ below))
      → Reaches
          (at i (unprocessed L t parent ∷ below))
          (xs ++ (record { node = t; index = j; child_indices = is } ∷ []))
          (at (j + 1) after)
  tree_steps t i parent below after xs is j h walked =
      let opened = at i (entries L (length below) (children L t) ++ entered t parent [] ∷ below) in
      let closed = at j (entered t parent is ∷ below) in
      let last : PostOrderIterItem L = record { node = t; index = j; child_indices = is } in
      reach_trans (at i (unprocessed L t parent ∷ below)) opened (at (j + 1) after) []
        (xs ++ (last ∷ []))
        (reach_again (at i (unprocessed L t parent ∷ below)) opened
          (next_step-unprocessed t parent i below))
        (reach_trans opened closed (at (j + 1) after) xs (last ∷ [])
          (subst (λ x. Reaches opened xs (at j (x ∷ below))) (with_indices-append t parent [] is)
            walked)
          (reach_yielded closed (at (j + 1) after) last
            (next_step-processed t parent j is below after h)))

  mutual
    unfolding post_order

    tree-Reaches :
        {t : L.Node} (f : Finite t) (i : ℕ) (parent : Option ℕ)
        (below after : List (IterStackItem L))
        → push_parent L (post_order f i).1 parent below ≡ ok after
        → Reaches
            (at i (unprocessed L t parent ∷ below))
            (post_order f i).0
            (at ((post_order f i).1 + 1) after)
    tree-Reaches {t} (Finite.finite fs) i parent below after h =
        tree_steps t i parent below after (post_orders fs i).0 (post_orders fs i).1
          (post_orders fs i).2 h (forest-Reaches fs i (entered t parent []) below)

    forest-Reaches :
        {ts : List L.Node} (fs : AllFinite ts) (i : ℕ) (current : IterStackItem L)
        (below : List (IterStackItem L))
        → Reaches
            (at i (entries L (length below) ts ++ current ∷ below))
            (post_orders fs i).0
            (at (post_orders fs i).2 (with_indices current (post_orders fs i).1 ∷ below))
    forest-Reaches AllFinite.nil i current below = reach_refl (at i (current ∷ below))
    forest-Reaches (AllFinite.cons {t} {ts} f fs) i current below =
        let first = post_order f i in
        let above = entries L (length below) ts in
        let next = push_index L first.1 current in
        let rest = post_orders fs (first.1 + 1) in
        reach_trans (at i (entries L (length below) (t ∷ ts) ++ current ∷ below))
          (at (first.1 + 1) (above ++ next ∷ below)) (at rest.2 (with_indices next rest.1 ∷ below))
          first.0 rest.0
          (tree-Reaches f i (some (length below)) (above ++ current ∷ below) (above ++ next ∷ below)
            (push_at-below L first.1 above current below))
          (forest-Reaches fs (first.1 + 1) next below)

  -- Enough fuel, and any more, gives all items: the calls of `next` yield the nodes of a finite tree in
  -- post order, children before their parent and from left to right, each with the index of its call
  -- and the indices of its children, and then there is nothing left to yield.
  pub items-post_order :
      {t : L.Node} (f : Finite t)
      → (n : ℕ) × ((fuel : ℕ) → items L (n + fuel) (post_order_iter L t) ≡ ok (post_order f 0).0)
  unfolding items next_step
  items-post_order {t} f =
      let (n, g) = tree-Reaches f 0 none [] [] refl in
      (
        n + 1,
        (λ fuel.
            ap (λ k. items L k (post_order_iter L t)) (assoc_fuel n 1 fuel)
            ∙ g (1 + fuel)
            ∙ rw (one_fuel fuel) (ap ok (append_nil (post_order f 0).0))),
      )
