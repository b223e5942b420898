-- ===== src/Interpreter/Refine/Indices.antt =====
-- What is left of a list from an index on.
use rust_miniscript.Prelude.{
  ℕ, zero, suc, ◌<◌, ◌≤◌, some, List, [], ◌∷◌, length, nth, drop, ◌≡◌, refl, ap, arith,
}
use rust_miniscript.Miniscript.Ast.{nil, cons}
use rust_miniscript.Primitives.Locktime.{Bitcoin}
use rust_miniscript.Interpreter.Keys.{Crypto}
use rust_miniscript.Interpreter.Iter.{Script, Scripts}
use rust_miniscript.Interpreter.Arms.{sub_count, nth_sub}

pub drop_cons {ℓ} :
    {A : Type ℓ} (i : ℕ) (xs : List A) (y : A) (ys : List A)
    → drop i xs ≡ y ∷ ys
    → (nth i xs ≡ some y) × (drop (suc i) xs ≡ ys) × (i < length xs)
drop_cons i [] y ys h = cc
drop_cons zero (x ∷ []) y ys h = (cc, cc, omega arith)
drop_cons zero (x ∷ z ∷ xs) y ys h = (cc, cc, omega arith)
drop_cons (suc i) (x ∷ xs) y ys h =
    let (found, rest, below) = drop_cons i xs y ys h in (found, rest, omega (arith, below))

pub drop_nil {ℓ} :
    {A : Type ℓ} (i : ℕ) (xs : List A) → i ≤ length xs → drop i xs ≡ [] → i ≡ length xs
drop_nil i [] b h = omega (arith, b)
drop_nil zero (x ∷ xs) b h = cc
drop_nil (suc i) (x ∷ xs) b h = ap suc (drop_nil i xs (omega (arith, b)) h)

pub nth_below {ℓ} : {A : Type ℓ} (i : ℕ) (xs : List A) (y : A) → nth i xs ≡ some y → i < length xs
nth_below i [] y h = cc
nth_below zero (x ∷ xs) y h = omega arith
nth_below (suc i) (x ∷ xs) y h = omega (arith, nth_below i xs y h)

module _ {B : Bitcoin} (C : Crypto B) where
  abbrev pub drop_subs : ℕ → Scripts C → Scripts C
  drop_subs i nil = nil
  drop_subs zero (cons s ss) = cons s ss
  drop_subs (suc i) (cons s ss) = drop_subs i ss

  pub drop_subs_cons :
      (i : ℕ) (all : Scripts C) (s : Script C) (ss : Scripts C)
      → drop_subs i all ≡ cons s ss
      → (nth_sub C i all ≡ some s) × (drop_subs (suc i) all ≡ ss) × (i < sub_count C all)
  drop_subs_cons i nil s ss h = cc
  drop_subs_cons zero (cons x nil) s ss h = (cc, cc, omega arith)
  drop_subs_cons zero (cons x (cons z xs)) s ss h = (cc, cc, omega arith)
  drop_subs_cons (suc i) (cons x xs) s ss h =
      let (found, rest, below) = drop_subs_cons i xs s ss h in (found, rest, omega (arith, below))

  pub drop_subs_nil :
      (i : ℕ) (all : Scripts C) → i ≤ sub_count C all → drop_subs i all ≡ nil → i ≡ sub_count C all
  drop_subs_nil i nil b h = omega (arith, b)
  drop_subs_nil zero (cons x xs) b h = cc
  drop_subs_nil (suc i) (cons x xs) b h = ap suc (drop_subs_nil i xs (omega (arith, b)) h)

  pub drop_subs_none : (ss : Scripts C) → drop_subs 0 ss ≡ ss
  drop_subs_none nil = refl
  drop_subs_none (cons s ss) = refl
