-- ===== src/Interpreter/Acceptance.antt =====
-- What it means that the interpreter of src/interpreter/mod.rs accepts a spend.
use rust_miniscript.Prelude.{
  ℕ, ◌+◌, All, Bool, true, false, not, Option, none, some, List, [], ◌∷◌, Result, ok, err,
  ok_unique, if◌then◌else◌, ◌≡◌, refl, sym, ap, subst, ◌∙◌, arith,
}
use rust_miniscript.Primitives.Locktime.{Bitcoin}
use rust_miniscript.Types.Kinds.{Base}
use rust_miniscript.Ext.Leaves.{SigType}
use rust_miniscript.Miniscript.Ast.{Bytes, ty}
use rust_miniscript.Miniscript.Context.{Context}
use rust_miniscript.Policy.Semantic.{Policy, normalized, holds}
use rust_miniscript.Policy.Lift.{
  within_resource_limits, has_mixed_timelocks, contains_raw_pkh, lift,
}
use rust_miniscript.Policy.Lift.Recursion.{lifted}
use rust_miniscript.Policy.Lift.Runs.{lift-lifted}
use rust_miniscript.Policy.Lift.Spending.{spendable, lift-holds}
use rust_miniscript.Interpreter.Keys.{
  Crypto, BitcoinKey, KeySigPair, SatisfiedConstraint, Error, bitcoin_key, verify_sersig,
}
use rust_miniscript.Interpreter.Stack.{Element, Stack}
use rust_miniscript.Interpreter.Iter.{Script, Iter}
use rust_miniscript.Interpreter.Machine.{Outputs, outputs}
use rust_miniscript.Interpreter.Evaluator.{Run, play, eval}
use rust_miniscript.Interpreter.Inner.{Inner, ScriptType, Interpreter, sig_type, iter_custom}
use rust_miniscript.Interpreter.Refine.Rounds.{Ends}
use rust_miniscript.Interpreter.Results.{
  spend, clean, signed_by, key_spend, results, iter_custom-results,
}
use rust_miniscript.Interpreter.Sound.Leaves.{Granted, Leaves, Means, verify_sersig-key}
use rust_miniscript.Interpreter.Sound.Recursion.{IsTyped, script-Means}
use rust_miniscript.Interpreter.Genuine.{Genuine, AllGenuine}
use rust_miniscript.Interpreter.Genuine.Recursion.{script-AllGenuine}

-- What `lift` checks before it lifts.
lift_conditions :
    {E A : Type 0} (within mixed raw : Bool) (x y z : E) (a b : A)
    → Path
        (Result E A)
        (if not within then err x else if mixed then err y else if raw then err z else ok a)
        (ok b)
    → (within ≡ true) × (mixed ≡ false) × (raw ≡ false)
lift_conditions false mixed raw x y z a b h = cc
lift_conditions true true raw x y z a b h = cc
lift_conditions true false true x y z a b h = cc
lift_conditions true false false x y z a b h = (refl, refl, refl)

swapped : (n m : ℕ) → n + m ≡ m + n
swapped n m = omega arith

module _ {B : Bitcoin} (C : Crypto B) where
  abbrev add :
      SatisfiedConstraint C
      → Option (List (SatisfiedConstraint C))
      → Option (List (SatisfiedConstraint C))
  add c none = none
  add c (some cs) = some (c ∷ cs)

  -- All results, where they are constraints up to the end.
  abbrev pub constraints : Outputs C → Option (List (SatisfiedConstraint C))
  constraints (Outputs.item (ok c) o) = add c (constraints o)
  constraints (Outputs.item (err e) o) = none
  constraints Outputs.ends = some []
  constraints Outputs.panics = none
  constraints Outputs.out_of_fuel = none

  -- The results that are constraints.
  abbrev pub AllYielded : (SatisfiedConstraint C → Type 0) → Outputs C → Type 0
  AllYielded P (Outputs.item (ok c) o) = P c × AllYielded P o
  AllYielded P (Outputs.item (err e) o) = AllYielded P o
  AllYielded P _ = Unit

  add-some :
      (c : SatisfiedConstraint C) (o : Option (List (SatisfiedConstraint C)))
      (cs : List (SatisfiedConstraint C))
      → add c o ≡ some cs
      → (rest : List (SatisfiedConstraint C)) × (o ≡ some rest) × (c ∷ rest ≡ cs)
  add-some c none cs h = cc
  add-some c (some rest) cs h = (rest, refl, cc)

  -- The outputs on enough fuel are unique.
  Ends-unique : (it : Iter C) (o p : Outputs C) → Ends C it o → Ends C it p → o ≡ p
  Ends-unique it o p (n, f) (m, g) = sym (f m) ∙ ap (λ k. outputs C k it) (swapped n m) ∙ g n

  clean-accepted :
      (st : Stack) (cs : List (SatisfiedConstraint C))
      → constraints (clean C st) ≡ some cs
      → Element.satisfied ∷ [] ≡ st
  clean-accepted [] cs h = cc
  clean-accepted (Element.satisfied ∷ []) cs h = refl
  clean-accepted (Element.satisfied ∷ x ∷ st) cs h = cc
  clean-accepted (Element.dissatisfied ∷ st) cs h = cc
  clean-accepted (Element.push b ∷ st) cs h = cc

  module _ (v : Policy B (bitcoin_key C) → Bool) where
    play-Leaves :
        (w : SigType) (r : Run C) (cs : List (SatisfiedConstraint C))
        → constraints (play C r (clean C)) ≡ some cs
        → All (Granted C w v) cs
        → Leaves C w v r (Element.satisfied ∷ [])
    play-Leaves w (Run.done st) cs h g = sym (clean-accepted st cs h)
    play-Leaves w (Run.yields c r) cs h g =
        let (rest, e, same) = add-some c (constraints (play C r (clean C))) cs h in
        let both = subst (All (Granted C w v)) (sym same) g in
        (both.0, play-Leaves w r rest e both.1)
    play-Leaves w (Run.fails e) cs h g = cc
    play-Leaves w Run.panics cs h g = cc

    -- A script of the base B that is accepted can be spent, where its constraints are granted.
    accepted-spendable :
        (i : Interpreter C) (verify_sig : KeySigPair C → Bool) (ms : Script C) (w : ScriptType)
        → i.inner ≡ Inner.script ms w
        → (ty ms).corr.base ≡ Base.b
        → IsTyped C ms
        → contains_raw_pkh ms ≡ false
        → (o : Outputs C) (cs : List (SatisfiedConstraint C))
        → Ends C (iter_custom C i verify_sig) o
        → constraints o ≡ some cs
        → All (Granted C (sig_type C i.inner) v) cs
        → spendable v ms ≡ true
    accepted-spendable i verify_sig ms w inner bool typed raw o cs ends accepted granted =
        let same : o ≡ results C i verify_sig (Inner.script ms w) =
          Ends-unique (iter_custom C i verify_sig) o (results C i verify_sig i.inner) ends
            (iter_custom-results C i verify_sig)
          ∙ ap (results C i verify_sig) inner in
        let left =
          play-Leaves (sig_type C i.inner) (eval C (spend C i verify_sig) ms i.stack) cs
            (ap constraints (sym same) ∙ accepted) granted in
        subst (λ b. Means b (spendable v ms) (Element.satisfied ∷ [])) bool
          (script-Means C (spend C i verify_sig) v ms typed raw i.stack (Element.satisfied ∷ [])
            left)

    -- The interpreter accepts no spend of a script but those that its policy allows: for a script of the base B with the types that
    -- `type_check` computes, if all results of the iterator, on enough fuel, are constraints, then the
    -- policy that `lift` returns holds under every valuation that grants these constraints.
    pub accepted-holds :
        (i : Interpreter C) (verify_sig : KeySigPair C → Bool) (ms : Script C) (w : ScriptType)
        → i.inner ≡ Inner.script ms w
        → (ty ms).corr.base ≡ Base.b
        → IsTyped C ms
        → (c : Context) (p : Policy B (bitcoin_key C)) → lift c ms ≡ ok p
        → (o : Outputs C) (cs : List (SatisfiedConstraint C))
        → Ends C (iter_custom C i verify_sig) o
        → constraints o ≡ some cs
        → All (Granted C (sig_type C i.inner) v) cs
        → holds v p ≡ true
    accepted-holds i verify_sig ms w inner bool typed c p lifts o cs ends accepted granted =
        let (within, plain, known) =
          lift_conditions (within_resource_limits c ms) (has_mixed_timelocks ms)
            (contains_raw_pkh ms) _ _ _ (normalized (lifted ms)) p
            (sym (lift-lifted c ms) ∙ lifts) in
        let (q, lifts', meaning) = lift-holds c ms within plain known in
        subst (λ r. holds v r ≡ true) (ok_unique (lift c ms) lifts' lifts)
          (meaning v
            ∙ accepted-spendable i verify_sig ms w inner bool typed known o cs ends accepted
                granted)

  module _ (i : Interpreter C) (verify_sig : KeySigPair C → Bool) where
    abbrev Real : SatisfiedConstraint C → Type 0
    Real = Genuine C (spend C i verify_sig)

    clean-AllYielded : (st : Stack) → AllYielded Real (clean C st)
    clean-AllYielded [] = tt
    clean-AllYielded (Element.satisfied ∷ []) = tt
    clean-AllYielded (Element.satisfied ∷ x ∷ st) = tt
    clean-AllYielded (Element.dissatisfied ∷ st) = tt
    clean-AllYielded (Element.push b ∷ st) = tt

    play-AllYielded :
        (r : Run C) → AllGenuine C (spend C i verify_sig) r → AllYielded Real (play C r (clean C))
    play-AllYielded (Run.done st) g = clean-AllYielded st
    play-AllYielded (Run.yields c r) g = (g.0, play-AllYielded r g.1)
    play-AllYielded (Run.fails e) g = tt
    play-AllYielded Run.panics g = tt

    signed_by-AllYielded :
        (pk : BitcoinKey C) (sig : Bytes) (st : Stack) (r : Result (Error C) (KeySigPair C))
        → verify_sersig C verify_sig pk sig ≡ r
        → AllYielded Real (signed_by C pk st r)
    signed_by-AllYielded pk sig st (ok ks) e =
        ((verify_sersig-key C verify_sig pk sig ks e).1, clean-AllYielded (Element.satisfied ∷ st))
    signed_by-AllYielded pk sig st (err x) e = tt

    key_spend-AllYielded :
        (pk : BitcoinKey C) (st : Stack) → AllYielded Real (key_spend C verify_sig pk st)
    key_spend-AllYielded pk [] = tt
    key_spend-AllYielded pk (Element.satisfied ∷ st) = tt
    key_spend-AllYielded pk (Element.dissatisfied ∷ st) = tt
    key_spend-AllYielded pk (Element.push sig ∷ st) =
        signed_by-AllYielded pk sig st (verify_sersig C verify_sig pk sig) refl

    results-AllYielded : (x : Inner C) → AllYielded Real (results C i verify_sig x)
    results-AllYielded (Inner.public_key key w) = key_spend-AllYielded key i.stack
    results-AllYielded (Inner.script ms w) =
        play-AllYielded (eval C (spend C i verify_sig) ms i.stack)
          (script-AllGenuine C (spend C i verify_sig) ms i.stack)

    -- Every constraint that the iterator yields is real, also before an error and for a script of any
    -- type: a signature that `verify_sig` accepts, for a key hash with a key on the witness stack of
    -- that hash, a preimage of 32 bytes of the hash, a lock time of the unit of the transaction's that
    -- is not after it, a relative lock time that the sequence number implies, the template hash that
    -- was supplied.
    pub iter_custom-Genuine :
        (n : ℕ) × ((fuel : ℕ)
          → AllYielded
              (Genuine C (spend C i verify_sig))
              (outputs C (n + fuel) (iter_custom C i verify_sig)))
    iter_custom-Genuine =
        let (n, f) = iter_custom-results C i verify_sig in
        (n, (λ fuel. subst (AllYielded Real) (sym (f fuel)) (results-AllYielded i.inner)))
