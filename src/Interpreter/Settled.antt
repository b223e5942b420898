-- ===== src/Interpreter/Settled.antt =====
-- The scripts on which the iterator of src/interpreter/mod.rs comes to an end without a panic.
pub mod Recursion
use rust_miniscript.Prelude.{
  ℕ, zero, suc, ◌+◌, ◌-◌, ◌<◌, ◌≤◌, Bool, true, false, Option, none, some, List, [], ◌∷◌, length,
  nth, take, drop, ◌==◌, ok, err, if◌then◌else◌, ◌≡◌, refl, arith,
}
use rust_miniscript.Primitives.Threshold.{Threshold}
use rust_miniscript.Primitives.Locktime.{Bitcoin}
use rust_miniscript.Types.Fragment.{Ty}
use rust_miniscript.Ext.Data.{ExtData}
use rust_miniscript.Miniscript.Ast.{Terminal}
use rust_miniscript.Miniscript.Build.{Everywhere}
use rust_miniscript.Interpreter.Keys.{Crypto, BitcoinKey, Error}
use rust_miniscript.Interpreter.Stack.{
  Element, Stack, Evaluation, evaluate_pk, evaluate_multi, evaluate_older,
}
use rust_miniscript.Interpreter.Iter.{Node}
use rust_miniscript.Interpreter.Arms.Multi.{nonsat}
use rust_miniscript.Interpreter.Machine.{Outputs}
use rust_miniscript.Interpreter.Evaluator.{
  Run, Spend, and_then, leaf, boolean, dissatisfy, verify_top, not_zero, unless_zero, and_top,
  replace_top, older_leaf, multi_a_key, multi_a_keys, multi_key, multi_at, multi_keys, multi_top,
  extra_zero,
}
use rust_miniscript.Interpreter.Inner.{Inner}

nth_within : {A : Type 0} (i : ℕ) (xs : List A) → i < length xs → (x : A) × (nth i xs ≡ some x)
nth_within i [] h = ground (arith, h)
nth_within zero (x ∷ xs) h = (x, refl)
nth_within (suc i) (x ∷ xs) h = nth_within i xs (omega (arith, h))

module _ {B : Bitcoin} (C : Crypto B) where
  -- Only constraints, then at most one error, and `None`.
  abbrev pub settled : Outputs C → Bool
  settled (Outputs.item (ok c) o) = settled o
  settled (Outputs.item (err e) Outputs.ends) = true
  settled (Outputs.item (err e) _) = false
  settled Outputs.ends = true
  settled Outputs.panics = false
  settled Outputs.out_of_fuel = false

  -- A node whose lock time, if it is a relative one, is one of the bitcoin crate's.
  abbrev pub Converts : Node C → Ty → ExtData → Type 0
  Converts (Terminal.older t) w e =
      (r : C.RelativeLockTime) × (C.to_relative_lock_time t.inner ≡ some r)
  Converts _ w e = Unit

  -- Every threshold is in range, as its type makes sure, and every relative lock time converts.
  abbrev pub Fits : Inner C → Type 0
  Fits (Inner.public_key key w) = Unit
  Fits (Inner.script ms w) = Everywhere Converts ms

  abbrev pub Calm : Run C → Type 0
  Calm (Run.done st) = Unit
  Calm (Run.yields c r) = Calm r
  Calm (Run.fails e) = Unit
  Calm Run.panics = ⊥

  pub and_then-Calm :
      (r : Run C) (f : Stack → Run C)
      → Calm r
      → ((st : Stack) → Calm (f st))
      → Calm (and_then C r f)
  and_then-Calm (Run.done st) f p q = q st
  and_then-Calm (Run.yields c r) f p q = and_then-Calm r f p q
  and_then-Calm (Run.fails e) f p q = tt
  and_then-Calm Run.panics f p q = absurd p

  pub boolean-Calm :
      (f g : Stack → Run C)
      → ((st : Stack) → Calm (f st))
      → ((st : Stack) → Calm (g st))
      → (st : Stack) → Calm (boolean C f g st)
  boolean-Calm f g p q [] = tt
  boolean-Calm f g p q (Element.satisfied ∷ st) = q st
  boolean-Calm f g p q (Element.dissatisfied ∷ st) = p st
  boolean-Calm f g p q (Element.push b ∷ st) = tt

  pub leaf-Calm : (r : Evaluation C × Stack) → Calm (leaf C r)
  leaf-Calm (none, st) = tt
  leaf-Calm (some (ok c), st) = tt
  leaf-Calm (some (err e), st) = tt

  -- A step on the top of the stack that yields nothing.
  pub verify_top-Calm : (st : Stack) → Calm (verify_top C st)
  verify_top-Calm [] = tt
  verify_top-Calm (Element.satisfied ∷ st) = tt
  verify_top-Calm (Element.dissatisfied ∷ st) = tt
  verify_top-Calm (Element.push b ∷ st) = tt

  pub not_zero-Calm : (st : Stack) → Calm (not_zero C st)
  not_zero-Calm [] = tt
  not_zero-Calm (Element.satisfied ∷ st) = tt
  not_zero-Calm (Element.dissatisfied ∷ st) = tt
  not_zero-Calm (Element.push b ∷ st) = tt

  pub and_top-Calm : (st : Stack) → Calm (and_top C st)
  and_top-Calm [] = tt
  and_top-Calm (Element.satisfied ∷ st) = tt
  and_top-Calm (Element.dissatisfied ∷ st) = tt
  and_top-Calm (Element.push b ∷ st) = tt

  pub replace_top-Calm : (e : Element) (st : Stack) → Calm (replace_top C e st)
  replace_top-Calm e [] = tt
  replace_top-Calm e (x ∷ st) = tt

  pub unless_zero-Calm :
      (f : Stack → Run C) → ((st : Stack) → Calm (f st)) → (st : Stack) → Calm (unless_zero C f st)
  unless_zero-Calm f p [] = tt
  unless_zero-Calm f p (Element.satisfied ∷ st) = p (Element.satisfied ∷ st)
  unless_zero-Calm f p (Element.dissatisfied ∷ st) = tt
  unless_zero-Calm f p (Element.push b ∷ st) = p (Element.push b ∷ st)

  pub if-Calm : (b : Bool) (x y : Run C) → Calm x → Calm y → Calm (if b then x else y)
  if-Calm true x y p q = p
  if-Calm false x y p q = q

  module _ (env : Spend C) where
    pub older-Calm :
        (o : Option C.RelativeLockTime) (r : C.RelativeLockTime) (st : Stack)
        → o ≡ some r
        → Calm (older_leaf C env o st)
    older-Calm none r st h = cc
    older-Calm (some n) r st h = leaf-Calm (evaluate_older C n env.sequence st)

    pub multi_a_key-Calm :
        (sat : ℕ) (go : ℕ → Stack → Run C) (r : Evaluation C × Stack)
        → ((n : ℕ) (st : Stack) → Calm (go n st))
        → Calm (multi_a_key C env sat go r)
    multi_a_key-Calm sat go (some (ok c), e ∷ st) p = p (sat + 1) st
    multi_a_key-Calm sat go (some (ok c), []) p = tt
    multi_a_key-Calm sat go (none, e ∷ st) p = p sat st
    multi_a_key-Calm sat go (none, []) p = tt
    multi_a_key-Calm sat go (some (err e), st) p = tt

    pub multi_a_keys-Calm :
        (k : ℕ) (pks : List (BitcoinKey C)) (sat : ℕ) (st : Stack)
        → Calm (multi_a_keys C env k pks sat st)
    unfolding multi_a_keys
    multi_a_keys-Calm k [] sat st = tt
    multi_a_keys-Calm k (pk ∷ pks) sat st =
        multi_a_key-Calm sat (λ n mid. multi_a_keys C env k pks n mid)
          (evaluate_pk C env.verify_sig pk st) (multi_a_keys-Calm k pks)

    pub multi_key-Calm :
        (sat : ℕ) (go : ℕ → Stack → Run C) (r : Evaluation C × Stack)
        → ((n : ℕ) (st : Stack) → Calm (go n st))
        → Calm (multi_key C env sat go r)
    multi_key-Calm sat go (some (ok c), st) p = p (sat + 1) st
    multi_key-Calm sat go (none, st) p = p sat st
    multi_key-Calm sat go (some (err e), st) p = tt

    pub multi_at-Calm :
        (sat j : ℕ) (keys : List (BitcoinKey C)) (go : ℕ → Stack → Run C) (st : Stack)
        → j < length keys
        → ((n : ℕ) (mid : Stack) → Calm (go n mid))
        → Calm (multi_at C env sat go st (nth j keys))
    multi_at-Calm sat j keys go st below p =
        let (pk, found) = nth_within j keys below in
        rw found (multi_key-Calm sat go (evaluate_multi C env.verify_sig pk st) p)

    pub extra_zero-Calm : (st : Stack) → Calm (extra_zero C env st)
    extra_zero-Calm [] = tt
    extra_zero-Calm (Element.satisfied ∷ st) = tt
    extra_zero-Calm (Element.dissatisfied ∷ st) = tt
    extra_zero-Calm (Element.push b ∷ st) = tt

    pub multi_keys-Calm :
        (k : ℕ) (keys : List (BitcoinKey C)) (j : ℕ)
        → j ≤ length keys
        → (sat : ℕ) (st : Stack) → Calm (multi_keys C env k keys j sat st)
    unfolding multi_keys
    multi_keys-Calm k keys zero below sat st =
        if-Calm (sat == k) (extra_zero C env st) (Run.fails Error.multi_sig_evaluation_error)
          (extra_zero-Calm st) tt
    multi_keys-Calm k keys (suc j) below sat st =
        let go : ℕ → Stack → Run C = λ n mid. multi_keys C env k keys j n mid in
        if-Calm (sat == k) (extra_zero C env st) (multi_at C env sat go st (nth j keys))
          (extra_zero-Calm st)
          (multi_at-Calm sat j keys go st (omega (arith, below))
            (multi_keys-Calm k keys j (omega (arith, below))))

    pub multi_top-Calm :
        (t : Threshold (BitcoinKey C)) (st : Stack)
        → 1 ≤ length t.inner
        → Calm (multi_top C env t st)
    multi_top-Calm t [] h = tt
    multi_top-Calm t (Element.dissatisfied ∷ st) h =
        let all : Stack = Element.dissatisfied ∷ st in
        if-Calm (nonsat C (take (t.k + 1) all) == t.k + 1) (dissatisfy C (drop (t.k + 1) all))
          (Run.fails Error.missing_extra_zero_multi_sig) tt tt
    multi_top-Calm t (Element.satisfied ∷ st) h =
        let j = length t.inner - 1 in
        multi_at-Calm 0 j t.inner (λ n mid. multi_keys C env t.k t.inner j n mid)
          (Element.satisfied ∷ st) (omega (arith, h))
          (multi_keys-Calm t.k t.inner j (omega (arith, h)))
    multi_top-Calm t (Element.push b ∷ st) h =
        let j = length t.inner - 1 in
        multi_at-Calm 0 j t.inner (λ n mid. multi_keys C env t.k t.inner j n mid)
          (Element.push b ∷ st) (omega (arith, h))
          (multi_keys-Calm t.k t.inner j (omega (arith, h)))
