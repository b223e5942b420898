-- ===== src/Descriptor/TapTree/Depth.antt =====
-- What the trees of src/descriptor/tr/taptree.rs stand for, and how deep they get.
use rust_miniscript.Prelude.{
  ℕ, suc, ◌+◌, ◌-◌, ◌≤◌, max, not, leb_iff, Bool, true, false, ◌&&◌, ltb, leb, List, [], ◌∷◌, ◌++◌,
  Result, ok, err, ◌>>=◌, if◌then◌else◌, ◌≡◌, refl, sym, ap, ◌∙◌, arith, Bool-cases, inl, inr,
}
use rust_miniscript.Descriptor.TapTree.{TapTreeDepthError, TapTree, leaf, deepen, combine}

-- A tree as such.
pub data Branching (A : Type 0) : Type 0 where
  tip : A → Branching A
  fork : Branching A → Branching A → Branching A

ok_bind : {E A : Type 0} (r : Result E A) → r ≡ (do a ← r; ok a)
ok_bind (err e) = refl
ok_bind (ok a) = refl

front :
    {E A : Type 0} (r s : Result E (List A)) (x : A)
    → (do ys ← (do us ← r; vs ← s; ok (us ++ vs)); ok (x ∷ ys))
      ≡ (do us ← (do ws ← r; ok (x ∷ ws)); vs ← s; ok (us ++ vs))
front (err e) s x = refl
front (ok us) (err e) x = refl
front (ok us) (ok vs) x = refl

-- Two lists under tests, one after the other.
both_tested :
    {E A : Type 0} (a b : Bool) (e : E) (xs ys : List A)
    → (do us ← (if a then ok xs else err e); vs ← (if b then ok ys else err e); ok (us ++ vs))
      ≡ (if a && b then ok (xs ++ ys) else err e)
both_tested true true e xs ys = refl
both_tested true false e xs ys = refl
both_tested false b e xs ys = refl

tip_deep : (m d : ℕ) → 1 ≤ m → ltb (m - 1) d ≡ not (ltb (d + 0) m)
tip_deep m d h = ground (arith, h)

fork_deep : (m d a b : ℕ) → (ltb (d + 1 + a) m && ltb (d + 1 + b) m) ≡ ltb (d + suc (max a b)) m
fork_deep m d a b = ground arith

fork_height : (m a b : ℕ) → (ltb (0 + a) m && ltb (0 + b) m) ≡ leb (suc (max a b)) m
fork_height m a b = ground arith

left_high : (m a b : ℕ) → leb a m ≡ false → leb (suc (max a b)) m ≡ false
left_high m a b h = ground (arith, h)

right_high : (m a b : ℕ) → leb b m ≡ false → leb (suc (max a b)) m ≡ false
right_high m a b h = ground (arith, h)

module _ {A : Type 0} where
  abbrev pub height : Branching A → ℕ
  height (Branching.tip a) = 0
  height (Branching.fork l r) = suc (max (height l) (height r))

  -- The leaves with their depths, below a root of depth `d`.
  abbrev pub depths : ℕ → Branching A → List (ℕ × A)
  depths d (Branching.tip a) = (d, a) ∷ []
  depths d (Branching.fork l r) = depths (d + 1) l ++ depths (d + 1) r

  -- The tree built by calls of `leaf` and `combine`.
  abbrev pub built : ℕ → Branching A → Result TapTreeDepthError (TapTree A)
  built m (Branching.tip a) = ok (leaf a)
  built m (Branching.fork l r) = do x ← built m l; y ← built m r; combine m x y

  abbrev too_deep : Result TapTreeDepthError (List (ℕ × A))
  too_deep = err TapTreeDepthError.tap_tree_depth_error

  deepen-append :
      (m : ℕ) (xs ys : List (ℕ × A))
      → deepen m (xs ++ ys) ≡ (do us ← deepen m xs; vs ← deepen m ys; ok (us ++ vs))
  unfolding deepen
  deepen-append m [] ys = ok_bind (deepen m ys)
  deepen-append m (x ∷ xs) ys = elim (Bool-cases (ltb (m - 1) x.0)) [
    | inl deep ↦ rw deep refl
    | inr fine ↦ rw (fine, deepen-append m xs ys) (front (deepen m xs) (deepen m ys) (x.0 + 1, x.1))
  ]

  -- All leaves of a tree get one level deeper, unless one is at the limit.
  deepen-depths :
      (m d : ℕ) (t : Branching A)
      → 1 ≤ m
      → deepen m (depths d t) ≡ (if ltb (d + height t) m then ok (depths (d + 1) t) else too_deep)
  unfolding deepen
  deepen-depths m d (Branching.tip a) h = elim (Bool-cases (ltb (d + 0) m)) [
    | inl fine ↦ rw (tip_deep m d h, fine) refl
    | inr deep ↦ rw (tip_deep m d h, deep) refl
  ]
  deepen-depths m d (Branching.fork l r) h =
      deepen-append m (depths (d + 1) l) (depths (d + 1) r)
      ∙ rw
          (
            deepen-depths m (d + 1) l h,
            deepen-depths m (d + 1) r h,
            sym (fork_deep m d (height l) (height r)),
          )
          (both_tested (ltb (d + 1 + height l) m) (ltb (d + 1 + height r) m)
            TapTreeDepthError.tap_tree_depth_error (depths (d + 1 + 1) l) (depths (d + 1 + 1) r))

  abbrev wrap : Result TapTreeDepthError (List (ℕ × A)) → Result TapTreeDepthError (TapTree A)
  wrap r = do xs ← r; ok (record { depths_leaves = xs })

  wrap_tested :
      (b : Bool) (xs : List (ℕ × A))
      → wrap (if b then ok xs else too_deep) ≡ (
          if b
          then ok (record { depths_leaves = xs })
          else err TapTreeDepthError.tap_tree_depth_error)
  wrap_tested true xs = refl
  wrap_tested false xs = refl

  combine-depths :
      (m : ℕ) (l r : Branching A)
      → 1 ≤ m
      → combine m (record { depths_leaves = depths 0 l }) (record { depths_leaves = depths 0 r })
        ≡ (if leb (height (Branching.fork l r)) m
            then ok (record { depths_leaves = depths 0 (Branching.fork l r) })
            else err TapTreeDepthError.tap_tree_depth_error)
  unfolding combine
  combine-depths m l r h =
      rw (deepen-append m (depths 0 l) (depths 0 r), deepen-depths m 0 l h, deepen-depths m 0 r h)
        (ap wrap (
            both_tested (ltb (0 + height l) m) (ltb (0 + height r) m)
              TapTreeDepthError.tap_tree_depth_error (depths 1 l) (depths 1 r))
          ∙ rw (fork_height m (height l) (height r))
              (wrap_tested (leb (suc (max (height l) (height r))) m) (depths 1 l ++ depths 1 r)))

  -- Where the limit is positive, a tree that is put together from leaves by `combine` is refused exactly
  -- where it is higher than the limit, and otherwise its leaves have their depths in the tree, in order.
  pub built-depths :
      (m : ℕ) (t : Branching A)
      → 1 ≤ m
      → built m t ≡ (
          if leb (height t) m
          then ok (record { depths_leaves = depths 0 t })
          else err TapTreeDepthError.tap_tree_depth_error)
  unfolding leaf
  built-depths m (Branching.tip a) h = rw ((leb_iff 0 m).1 (omega arith)) refl
  built-depths m (Branching.fork l r) h = elim (Bool-cases (leb (height l) m)) [
    | inr high ↦ rw (built-depths m l h, high, left_high m (height l) (height r) high) refl
    | inl low ↦ elim (Bool-cases (leb (height r) m)) [
      | inr high ↦
          rw
            (
              built-depths m l h,
              low,
              built-depths m r h,
              high,
              right_high m (height l) (height r) high,
            )
            refl
      | inl flat ↦ rw (built-depths m l h, low, built-depths m r h, flat) (combine-depths m l r h)
    ]
  ]
