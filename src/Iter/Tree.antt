-- ===== src/Iter/Tree.antt =====
-- src/iter/tree.rs: `TreeLike` and its post-order iterator. A stack is a list with its top first, so
-- that the index of an element of the source's vector is the number of elements below it.
pub mod Children
pub mod PostOrder
use rust_miniscript.Prelude.{
  ℕ, zero, suc, ◌+◌, Bool, true, false, ltb, ◌==◌, Option, none, some, List, [], ◌∷◌, ◌++◌, ◌-◌,
  map, length, Result, ok, err, ◌>>=◌, if◌then◌else◌,
}

pub data Tree (T NT : Type 0) : Type 0 where
  nullary : Tree T NT
  unary : T → Tree T NT
  binary : T → T → Tree T NT
  ternary : T → T → T → Tree T NT
  nary : NT → Tree T NT

pub record TreeLike : Type 1 where
  pub Node : Type 0
  pub NaryChildren : Type 0
  pub nary_len : NaryChildren → ℕ
  pub nary_index : NaryChildren → ℕ → Node
  pub as_node : Node → Tree Node NaryChildren

-- Why there is no result.
pub data Stop : Type 0 where
  panic out_of_fuel : Stop

abbrev pub unwrap : {A : Type 0} → Option A → Result Stop A
unwrap none = err Stop.panic
unwrap (some a) = ok a

pub record IterStackItem (L : TreeLike) : Type 0 where
  pub elem : L.Node
  pub processed : Bool
  pub child_indices : List ℕ
  pub parent_stack_idx : Option ℕ

pub record PostOrderIterItem (L : TreeLike) : Type 0 where
  pub node : L.Node
  pub index : ℕ
  pub child_indices : List ℕ

pub record PostOrderIter (L : TreeLike) : Type 0 where
  pub index : ℕ
  pub stack : List (IterStackItem L)

-- What a call of `next` does before it returns or calls itself.
pub data Step (L : TreeLike) : Type 0 where
  finished : Step L
  again : PostOrderIter L → Step L
  yielded : PostOrderIterItem L → PostOrderIter L → Step L

module _ (L : TreeLike) where
  abbrev pub n_children_of : Tree L.Node L.NaryChildren → ℕ
  n_children_of Tree.nullary = 0
  n_children_of (Tree.unary a) = 1
  n_children_of (Tree.binary a b) = 2
  n_children_of (Tree.ternary a b c) = 3
  n_children_of (Tree.nary children) = L.nary_len children

  abbrev pub n_children : L.Node → ℕ
  n_children t = n_children_of (L.as_node t)

  abbrev pub nth_child_of : ℕ → Tree L.Node L.NaryChildren → Option L.Node
  nth_child_of n Tree.nullary = none
  nth_child_of zero (Tree.unary a) = some a
  nth_child_of (suc n) (Tree.unary a) = none
  nth_child_of zero (Tree.binary a b) = some a
  nth_child_of (suc zero) (Tree.binary a b) = some b
  nth_child_of (suc (suc n)) (Tree.binary a b) = none
  nth_child_of zero (Tree.ternary a b c) = some a
  nth_child_of (suc zero) (Tree.ternary a b c) = some b
  nth_child_of (suc (suc zero)) (Tree.ternary a b c) = some c
  nth_child_of (suc (suc (suc n))) (Tree.ternary a b c) = none
  nth_child_of n (Tree.nary children) =
      if ltb n (L.nary_len children) then some (L.nary_index children n) else none

  abbrev pub nth_child : L.Node → ℕ → Option L.Node
  nth_child t n = nth_child_of n (L.as_node t)

  abbrev pub unprocessed : L.Node → Option ℕ → IterStackItem L
  unprocessed elem parent = record {
    elem = elem;
    processed = false;
    child_indices = [];
    parent_stack_idx = parent;
  }

  -- The loop over `(0..n).rev()` that pushes the children of `t`.
  unfoldable pub push_children :
      L.Node → ℕ → ℕ → List (IterStackItem L) → Result Stop (List (IterStackItem L))
  push_children t current_stack_idx zero stack = ok stack
  push_children t current_stack_idx (suc idx) stack = do
    child ← unwrap (nth_child t idx)
    push_children t current_stack_idx idx (unprocessed child (some current_stack_idx) ∷ stack)

  abbrev pub push_index : ℕ → IterStackItem L → IterStackItem L
  push_index index x = record {
    elem = x.elem;
    processed = x.processed;
    child_indices = x.child_indices ++ (index ∷ []);
    parent_stack_idx = x.parent_stack_idx;
  }

  -- `self.stack[idx].child_indices.push(index)`.
  unfoldable pub push_at : ℕ → ℕ → List (IterStackItem L) → Result Stop (List (IterStackItem L))
  push_at index idx [] = err Stop.panic
  push_at index idx (x ∷ xs) =
      let rest = push_at index idx xs in
      if length xs == idx then ok (push_index index x ∷ xs) else (do ys ← rest; ok (x ∷ ys))

  abbrev pub push_parent :
      ℕ → Option ℕ → List (IterStackItem L) → Result Stop (List (IterStackItem L))
  push_parent index none stack = ok stack
  push_parent index (some idx) stack = push_at index idx stack

  -- `next` with an item that has been popped off the stack.
  unfoldable pub next_popped : ℕ → IterStackItem L → List (IterStackItem L) → Result Stop (Step L)
  unfolding push_children push_at
  next_popped index current stack =
      if current.processed
      then (do
        rest ← push_parent index current.parent_stack_idx stack
        ok (
            Step.yielded
              (record { node = current.elem; index = index; child_indices = current.child_indices })
              (record { index = index + 1; stack = rest })))
      else (do
        let entered : IterStackItem L = record {
          elem = current.elem;
          processed = true;
          child_indices = current.child_indices;
          parent_stack_idx = current.parent_stack_idx;
        }
        rest ← push_children current.elem (length stack) (n_children current.elem) (entered ∷ stack)
        ok (Step.again (record { index = index; stack = rest })))

  abbrev pub next_on : ℕ → List (IterStackItem L) → Result Stop (Step L)
  next_on index [] = ok Step.finished
  next_on index (current ∷ stack) = next_popped index current stack

  unfoldable pub next_step : PostOrderIter L → Result Stop (Step L)
  unfolding next_popped
  next_step it = next_on it.index it.stack

  abbrev pub items_after :
      (PostOrderIter L → Result Stop (List (PostOrderIterItem L)))
      → Step L
      → Result Stop (List (PostOrderIterItem L))
  items_after others Step.finished = ok []
  items_after others (Step.again it) = others it
  items_after others (Step.yielded x it) = do rest ← others it; ok (x ∷ rest)

  -- The items of all calls of `next` up to the first `None`, on fuel for the calls.
  unfoldable pub items : ℕ → PostOrderIter L → Result Stop (List (PostOrderIterItem L))
  unfolding next_step
  items zero it = err Stop.out_of_fuel
  items (suc fuel) it = do s ← next_step it; items_after (items fuel) s

  abbrev pub post_order_iter : L.Node → PostOrderIter L
  post_order_iter t = record { index = 0; stack = unprocessed t none ∷ [] }

-- `Rtl`, which swaps the children, and the iterator over it.
abbrev pub swapped : {T NT : Type 0} → Tree T NT → Tree T NT
swapped Tree.nullary = Tree.nullary
swapped (Tree.unary a) = Tree.unary a
swapped (Tree.binary a b) = Tree.binary b a
swapped (Tree.ternary a b c) = Tree.ternary c b a
swapped (Tree.nary cs) = Tree.nary cs

abbrev pub rtl : TreeLike → TreeLike
rtl L = record {
  Node = L.Node;
  NaryChildren = L.NaryChildren;
  nary_len = L.nary_len;
  nary_index = λ tc idx. L.nary_index tc (L.nary_len tc - idx - 1);
  as_node = λ t. swapped (L.as_node t);
}

abbrev pub reverse : List ℕ → List ℕ
reverse [] = []
reverse (x ∷ xs) = reverse xs ++ (x ∷ [])

module _ (L : TreeLike) where
  abbrev pub rtl_item : PostOrderIterItem (rtl L) → PostOrderIterItem L
  rtl_item item = record {
    node = item.node;
    index = item.index;
    child_indices = reverse item.child_indices;
  }

  -- The items of `rtl_post_order_iter`.
  unfoldable pub rtl_items : ℕ → L.Node → Result Stop (List (PostOrderIterItem L))
  unfolding items
  rtl_items fuel t = do xs ← items (rtl L) fuel (post_order_iter (rtl L) t); ok (map rtl_item xs)
