-- ===== src/Iter/Tree/Children.antt =====
-- The children of a node of src/iter/tree.rs as a list, and how they are pushed and found on a stack.
use rust_miniscript.Prelude.{
  ℕ, zero, suc, ◌≤◌, ◌<◌, false, ltb, ltb_iff, ◌==◌, ==_iff, none, some, List, [], ◌∷◌, ◌++◌, map,
  length, length-append, nth, nth-All, All, take, take_all, ok, if◌then◌else◌, ◌≡◌, refl, sym, ap,
  ap₂, ◌∙◌, arith,
}
use rust_miniscript.Iter.Tree.{
  Tree, TreeLike, IterStackItem, n_children_of, n_children, nth_child_of, unprocessed,
  push_children, push_index, push_at,
}

ltb_zero : (i : ℕ) → ltb i 0 ≡ false
ltb_zero i = ground arith

less_next : (i n : ℕ) → ltb (suc i) (suc n) ≡ ltb i n
less_next i n = ground arith

take_zero : {A : Type 0} (xs : List A) → take 0 xs ≡ []
take_zero [] = refl
take_zero (x ∷ xs) = refl

same_some : {A : Type 0} {x y : A} → some x ≡ some y → x ≡ y
same_some h = cc

abbrev pub tabulate : {A : Type 0} → (ℕ → A) → ℕ → List A
tabulate f zero = []
tabulate f (suc n) = f 0 ∷ tabulate (λ i. f (suc i)) n

length-tabulate : {A : Type 0} (f : ℕ → A) (n : ℕ) → length (tabulate f n) ≡ n
length-tabulate f zero = refl
length-tabulate f (suc n) = ap suc (length-tabulate (λ i. f (suc i)) n)

nth-tabulate :
    {A : Type 0} (f : ℕ → A) (n i : ℕ)
    → nth i (tabulate f n) ≡ (if ltb i n then some (f i) else none)
nth-tabulate f zero i = rw (ltb_zero i) refl
nth-tabulate f (suc n) zero = rw ((ltb_iff 0 (suc n)).1 (omega arith)) refl
nth-tabulate f (suc n) (suc i) = nth-tabulate (λ j. f (suc j)) n i ∙ rw (less_next i n) refl

-- The first elements, and one more.
take-suc :
    {A : Type 0} (i : ℕ) (xs : List A) (x : A)
    → nth i xs ≡ some x
    → take (suc i) xs ≡ take i xs ++ (x ∷ [])
take-suc i [] x h = cc
take-suc zero (y ∷ ys) x h = ap₂ (λ a r. a ∷ r) (same_some h) (take_zero ys)
take-suc (suc i) (y ∷ ys) x h = ap (λ r. y ∷ r) (take-suc i ys x h)

pub append_assoc : {A : Type 0} (a b c : List A) → (a ++ b) ++ c ≡ a ++ (b ++ c)
append_assoc [] b c = refl
append_assoc (x ∷ a) b c = ap (λ r. x ∷ r) (append_assoc a b c)

pub map-append :
    {A B : Type 0} (f : A → B) (xs ys : List A) → map f (xs ++ ys) ≡ map f xs ++ map f ys
map-append f [] ys = refl
map-append f (x ∷ xs) ys = ap (λ r. f x ∷ r) (map-append f xs ys)

no_claim : {A : Type 0} (xs : List A) → All (λ x. Unit {0}) xs
no_claim [] = tt
no_claim (x ∷ xs) = (tt, no_claim xs)

differ_longer : (a b : ℕ) → b < a → (a == b) ≡ false
differ_longer a b h = ground (arith, h)

longer :
    {A : Type 0} (ys : List A) (x : A) (below : List A)
    → (length (ys ++ x ∷ below) == length below) ≡ false
longer ys x below =
    differ_longer (length (ys ++ x ∷ below)) (length below)
      (omega (arith, length-append ys (x ∷ below)))

module _ (L : TreeLike) where
  abbrev pub children_of : Tree L.Node L.NaryChildren → List L.Node
  children_of Tree.nullary = []
  children_of (Tree.unary a) = a ∷ []
  children_of (Tree.binary a b) = a ∷ b ∷ []
  children_of (Tree.ternary a b c) = a ∷ b ∷ c ∷ []
  children_of (Tree.nary cs) = tabulate (L.nary_index cs) (L.nary_len cs)

  length-children_of : (t : Tree L.Node L.NaryChildren) → length (children_of t) ≡ n_children_of L t
  length-children_of Tree.nullary = refl
  length-children_of (Tree.unary a) = refl
  length-children_of (Tree.binary a b) = refl
  length-children_of (Tree.ternary a b c) = refl
  length-children_of (Tree.nary cs) = length-tabulate (L.nary_index cs) (L.nary_len cs)

  nth-children_of :
      (n : ℕ) (t : Tree L.Node L.NaryChildren) → nth_child_of L n t ≡ nth n (children_of t)
  nth-children_of n Tree.nullary = refl
  nth-children_of zero (Tree.unary a) = refl
  nth-children_of (suc n) (Tree.unary a) = refl
  nth-children_of zero (Tree.binary a b) = refl
  nth-children_of (suc zero) (Tree.binary a b) = refl
  nth-children_of (suc (suc n)) (Tree.binary a b) = refl
  nth-children_of zero (Tree.ternary a b c) = refl
  nth-children_of (suc zero) (Tree.ternary a b c) = refl
  nth-children_of (suc (suc zero)) (Tree.ternary a b c) = refl
  nth-children_of (suc (suc (suc n))) (Tree.ternary a b c) = refl
  nth-children_of n (Tree.nary cs) = sym (nth-tabulate (L.nary_index cs) (L.nary_len cs) n)

  -- The children of a node, as the iterator finds them.
  abbrev pub children : L.Node → List L.Node
  children t = children_of (L.as_node t)

  abbrev pub entry : ℕ → L.Node → IterStackItem L
  entry parent t = unprocessed L t (some parent)

  -- What `push_children` puts on the stack: the children, the first one on top.
  abbrev pub entries : ℕ → List L.Node → List (IterStackItem L)
  entries parent ts = map (entry parent) ts

  push_children-take :
      (t : L.Node) (parent i : ℕ) (stack : List (IterStackItem L))
      → i ≤ length (children t)
      → push_children L t parent i stack ≡ ok (entries parent (take i (children t)) ++ stack)
  unfolding push_children
  push_children-take t parent zero stack h = rw (take_zero (children t)) refl
  push_children-take t parent (suc i) stack h =
      let (x, found, any) =
        nth-All (λ u. Unit) (children t) i (no_claim (children t)) (omega (arith, h)) in
      rw (nth-children_of i (L.as_node t), found)
        (push_children-take t parent i (unprocessed L x (some parent) ∷ stack) (omega (arith, h))
          ∙ ap ok (
              sym (
                rw
                  (
                    take-suc i (children t) x found,
                    map-append (entry parent) (take i (children t)) (x ∷ []),
                  )
                  (append_assoc (map (entry parent) (take i (children t))) (entry parent x ∷ [])
                    stack))))

  pub push_children-entries :
      (t : L.Node) (parent : ℕ) (stack : List (IterStackItem L))
      → push_children L t parent (n_children L t) stack ≡ ok (entries parent (children t) ++ stack)
  push_children-entries t parent stack = rw (sym (length-children_of (L.as_node t))) (
      push_children-take t parent (length (children t)) stack (omega arith)
      ∙ rw (take_all (children t)) refl)

  -- The parent of an entry is found below the other entries.
  pub push_at-below :
      (index : ℕ) (above : List (IterStackItem L)) (x : IterStackItem L)
      (below : List (IterStackItem L))
      → push_at L index (length below) (above ++ x ∷ below)
        ≡ ok (above ++ push_index L index x ∷ below)
  unfolding push_at
  push_at-below index [] x below = rw ((==_iff (length below) (length below)).1 refl) refl
  push_at-below index (y ∷ ys) x below = rw (longer ys x below, push_at-below index ys x below) refl
