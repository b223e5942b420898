-- ===== src/Descriptor/TapTree/Display.antt =====
-- What `fmt_helper` of src/descriptor/tr/taptree.rs prints.
use rust_miniscript.Prelude.{
  ℕ, zero, suc, ◌+◌, ◌-◌, ◌≤◌, [], ◌∷◌, ◌++◌, ◌≡◌, refl, sym, ap, ◌∙◌, arith,
}
use rust_miniscript.Descriptor.TapTree.{Text, repeat, comma, fmt_leaves, fmt_helper}
use rust_miniscript.Descriptor.TapTree.Depth.{Branching, depths}

text_assoc : (a b c : Text) → (a ++ b) ++ c ≡ a ++ (b ++ c)
text_assoc [] b c = refl
text_assoc (x ∷ a) b c = ap (λ r. x ∷ r) (text_assoc a b c)

text_nil : (a : Text) → a ++ [] ≡ a
text_nil [] = refl
text_nil (x ∷ a) = ap (λ r. x ∷ r) (text_nil a)

-- One more of what is repeated, at its end.
repeat_last : (n ch : ℕ) (s : Text) → repeat (suc n) ch ++ s ≡ repeat n ch ++ (ch ∷ s)
repeat_last zero ch s = refl
repeat_last (suc n) ch s = ap (λ r. ch ∷ r) (repeat_last n ch s)

level : (last d : ℕ) → last ≤ d → last - d ≡ 0
level last d h = omega (arith, h)

deeper : (last d : ℕ) → last ≤ d → d + 1 - last ≡ suc (d - last)
deeper last d h = omega (arith, h)

next : (d : ℕ) → d + 1 ≡ suc d
next d = omega arith

same_level : (d : ℕ) → suc d - suc d ≡ 0
same_level d = omega arith

-- What comes after the first leaf of a fork at depth `d`.
after_tip :
    (d : ℕ) (s : Text)
    → comma (d + 1) ++ (repeat (d + 1 - (d + 1)) b'{' ++ (s ++ repeat (d + 1) b'}'))
      ≡ b',' ∷ (s ++ b'}' ∷ repeat d b'}')
after_tip d s = rw (next d, same_level d) refl

closed_fork :
    (a s rest : Text)
    → a ++ (b',' ∷ (s ++ b'}' ∷ rest)) ≡ (a ++ (b',' ∷ (s ++ (b'}' ∷ [])))) ++ rest
closed_fork a s rest = sym (
    text_assoc a (b',' ∷ (s ++ (b'}' ∷ []))) rest
    ∙ ap (λ r. a ++ (b',' ∷ r)) (text_assoc s (b'}' ∷ []) rest))

module _ {A : Type 0} (fmt_ms : A → Text) where
  -- The notation of a tree: a leaf as it is, and a fork as `{left,right}`.
  abbrev pub notation : Branching A → Text
  notation (Branching.tip a) = fmt_ms a
  notation (Branching.fork l r) = b'{' ∷ notation l ++ (b',' ∷ notation r ++ (b'}' ∷ []))

  -- Each left child is a leaf.
  abbrev pub LeftTips : Branching A → Type 0
  LeftTips (Branching.tip a) = Unit
  LeftTips (Branching.fork (Branching.tip a) r) = LeftTips r
  LeftTips (Branching.fork (Branching.fork l m) r) = ⊥

  fmt_leaves-notation :
      (t : Branching A) (last d : ℕ)
      → LeftTips t
      → last ≤ d
      → fmt_leaves fmt_ms last (depths d t)
        ≡ comma last ++ (repeat (d - last) b'{' ++ (notation t ++ repeat d b'}'))
  unfolding fmt_leaves
  fmt_leaves-notation (Branching.tip a) last d h k = rw (level last d k) refl
  fmt_leaves-notation (Branching.fork (Branching.fork l m) r) last d h k = absurd h
  fmt_leaves-notation (Branching.fork (Branching.tip a) r) last d h k =
      rw
        (
          fmt_leaves-notation r (d + 1) (d + 1) h (omega arith),
          level last (d + 1) (omega (arith, k)),
          deeper last d k,
        )
        (rw (after_tip d (notation r)) (
          ap (λ u. comma last ++ u)
            (repeat_last (d - last) b'{' (fmt_ms a ++ (b',' ∷ (notation r ++ b'}' ∷ repeat d b'}')))
              ∙ ap (λ u. repeat (d - last) b'{' ++ (b'{' ∷ u))
                  (closed_fork (fmt_ms a) (notation r) (repeat d b'}')))))

  -- A tree in which each left child is a leaf is printed in the notation with braces.
  pub fmt_helper-notation :
      (t : Branching A)
      → LeftTips t
      → fmt_helper fmt_ms (record { depths_leaves = depths 0 t }) ≡ notation t
  unfolding fmt_helper
  fmt_helper-notation t h = fmt_leaves-notation t 0 0 h (omega arith) ∙ text_nil (notation t)
