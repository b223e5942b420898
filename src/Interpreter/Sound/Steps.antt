-- ===== src/Interpreter/Sound/Steps.antt =====
-- The parts of src/interpreter/mod.rs that are neither a leaf of the stack nor a combination of Booleans,
-- and the bases of the fragments with a fixed type.
use rust_miniscript.Prelude.{
  ℕ, ◌+◌, ◌-◌, Bool, true, false, ◌||◌, from_bool, Bool-cases, Option, none, some, List, [], ◌∷◌,
  leb, ◌==◌, Result, ok, err, if◌then◌else◌, inl, inr, ◌≡◌, ap, subst, arith,
}
use rust_miniscript.Primitives.Locktime.{Bitcoin, RelLockTime}
use rust_miniscript.Types.Kinds.{Base, ErrorKind}
use rust_miniscript.Types.Fragment.{Ty}
use rust_miniscript.Miniscript.Ast.{Bytes, Inscription}
use rust_miniscript.Miniscript.Check.{check_inscribe, any_invalid, is_empty}
use rust_miniscript.Policy.Semantic.{Policy}
use rust_miniscript.Interpreter.Keys.{Crypto, SatisfiedConstraint, bitcoin_key}
use rust_miniscript.Interpreter.Stack.{Element, Stack}
use rust_miniscript.Interpreter.Machine.{template_is}
use rust_miniscript.Interpreter.Evaluator.{Run, Spend, thresh_end, older_leaf, template_leaf}
use rust_miniscript.Interpreter.Sound.Bases.{base}
use rust_miniscript.Interpreter.Sound.Leaves.{
  Shown, Means, Leaves, choose-Leaves, evaluate_older-Shown,
}
use rust_miniscript.Interpreter.Sound.Keys.{reached}
use rust_miniscript.Interpreter.Sound.Combinators.{Says}

pub ty_or : Ty → Result ErrorKind Ty → Ty
ty_or s (ok t) = t
ty_or s (err e) = s

pub ok_base : (s t : Ty) → Path (Result ErrorKind Ty) (ok s) (ok t) → base s ≡ base t
unfolding ty_or
ok_base s t h = ap (λ r. base (ty_or s r)) h

pub no_more : (n : ℕ) → 0 + n ≡ n
no_more n = omega arith

pub one_more : (k sat n : ℕ) → (sat == k - 1) ≡ true → leb k (sat + (1 + n)) ≡ true
one_more k sat n h = ground (arith, h)

pub picked :
    (b : Bool) (e : ErrorKind) (s t : Ty)
    → Path (Result ErrorKind Ty) (if b then err e else ok s) (ok t)
    → base s ≡ base t
picked true e s t h = cc
picked false e s t h = ok_base s t h

pub check_inscribe-base :
    (B : Bitcoin) (i : List Inscription) (s t : Ty) → check_inscribe B i s ≡ ok t → base s ≡ base t
unfolding check_inscribe
check_inscribe-base B i s t h =
    picked (is_empty i || any_invalid B i) ErrorKind.invalid_inscription s t h

module _ {B : Bitcoin} (C : Crypto B) (env : Spend C) (v : Policy B (bitcoin_key C) → Bool) where
  abbrev Leaving : Run C → Stack → Type 0
  Leaving = Leaves C env.sig_type v

  pub older-Says :
      (t : RelLockTime B) (o : Option C.RelativeLockTime)
      → C.to_relative_lock_time t.inner ≡ o
      → Says C env v (older_leaf C env o) Base.b (v (Policy.older t))
  older-Says t none e old st h = absurd h
  older-Says t (some n) e old st h =
      evaluate_older-Shown C env.sig_type v t n env.sequence old st e h

  pub template-Says :
      (hash : Bytes) → Says C env v (template_leaf C env hash) Base.v (v (Policy.tx_template hash))
  template-Says hash old st h =
      choose-Leaves C env.sig_type v (template_is C env.tx_template hash)
        (Run.yields (SatisfiedConstraint.tx_template hash) (Run.done old)) _ st (λ _ p. p.0)
        (λ _ failed. absurd failed) h

  -- The Boolean of the child before, and how many of those before it were satisfied.
  pub thresh_end-Shown :
      (k sat : ℕ) (a : Bool) (old st : Stack)
      → Shown a old
      → Leaving (thresh_end C env k sat old) st
      → Shown (leb k (sat + (from_bool a + 0))) st
  thresh_end-Shown k sat a [] st s h = absurd h
  thresh_end-Shown k sat a (Element.push x ∷ old) st s h = absurd h
  thresh_end-Shown k sat a (Element.dissatisfied ∷ old) st s h =
      subst (Shown (leb k (sat + (from_bool a + 0)))) h (elim (Bool-cases (sat == k)) [
        | inl e ↦ rw e (reached sat k (from_bool a + 0) e)
        | inr e ↦ rw e tt
      ])
  thresh_end-Shown k sat a (Element.satisfied ∷ old) st s h =
      subst (Shown (leb k (sat + (from_bool a + 0)))) h (elim (Bool-cases (sat == k - 1)) [
        | inl e ↦ rw (e, s) (one_more k sat 0 e)
        | inr e ↦ rw e tt
      ])

  -- The same with another base.
  pub rebase :
      (run : Stack → Run C) (x y : Base) (sp : Bool)
      → x ≡ y
      → Says C env v run x sp
      → Says C env v run y sp
  rebase run x y sp e says old st h = subst (λ z. Means z sp st) e (says old st h)

  -- A leaf, whose type is fixed.
  pub becomes :
      (run : Stack → Run C) (w t : Ty) (sp : Bool)
      → Path (Result ErrorKind Ty) (ok w) (ok t)
      → Says C env v run (base w) sp
      → Says C env v run (base t) sp
  becomes run w t sp e says = rebase run (base w) (base t) sp (ok_base w t e) says
