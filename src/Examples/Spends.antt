-- ===== src/Examples/Spends.antt =====
-- The theorems on the interpreter at a spend of `and_v(v:pk(5),after(100))`: keys are numbers, a
-- signature is the bytes 9 and the key, and a hash puts a byte before its argument.
use rust_miniscript.Prelude.{
  ℕ, ◌+◌, ◌^◌, Bool, true, false, none, some, List, [], ◌∷◌, ltb, leb, ok, if◌then◌else◌, ◌≡◌, refl,
}
use rust_miniscript.Miniscript.Ast.{Terminal}
use rust_miniscript.Miniscript.Context.{Context, check_local_validity}
use rust_miniscript.Policy.Semantic.{Policy, cons, nil, normalized, holds}
use rust_miniscript.Policy.Lift.{contains_raw_pkh, lift}
use rust_miniscript.Policy.Lift.Recursion.{lifted}
use rust_miniscript.Policy.Lift.Runs.{lift-lifted}
use rust_miniscript.Interpreter.Keys.{
  Crypto, BitcoinKey, KeySigPair, SatisfiedConstraint, bytes_eq, bitcoin_key, verify_sersig,
}
use rust_miniscript.Interpreter.Stack.{Element, evaluate_pk, evaluate_after}
use rust_miniscript.Interpreter.Iter.{Script}
use rust_miniscript.Interpreter.Machine.{outputs}
use rust_miniscript.Interpreter.Evaluator.{eval}
use rust_miniscript.Interpreter.Inner.{Inner, ScriptType, Interpreter, iter_custom}
use rust_miniscript.Interpreter.Results.{spend, results, iter_custom-results}
use rust_miniscript.Interpreter.Acceptance.{
  constraints, AllYielded, accepted-holds, iter_custom-Genuine,
}
use rust_miniscript.Interpreter.Genuine.{Genuine}
use rust_miniscript.Interpreter.Settled.{settled}
use rust_miniscript.Interpreter.Settled.Recursion.{iter_custom-settled}
use rust_miniscript.Interpreter.Sound.Recursion.{IsTyped}
use rust_miniscript.Examples.Setting.{numbers}
use rust_miniscript.Examples.Scripts.{annotate}

abbrev crypto : Crypto numbers
crypto = record {
  PublicKey = ℕ;
  XOnlyPublicKey = ℕ;
  EcdsaSignature = List ℕ;
  SchnorrSignature = List ℕ;
  EcdsaError = Unit;
  SchnorrError = Unit;
  RelativeLockTime = ℕ;
  compressed = λ pk. true;
  to_bytes = λ pk. pk ∷ [];
  x_only = λ pk. pk;
  serialize = λ pk. pk ∷ [];
  public_key_from_slice = λ b. none;
  x_only_from_slice = λ b. none;
  ecdsa_from_slice = λ b. ok b;
  schnorr_from_slice = λ b. ok b;
  sha256 = λ b. 1 ∷ b;
  hash256 = λ b. 2 ∷ b;
  hash160 = λ b. 3 ∷ b;
  ripemd160 = λ b. 4 ∷ b;
  to_relative_lock_time = λ n. if ltb n (2 ^ 31) then some n else none;
  is_implied_by = λ n m. leb n m;
}

abbrev signs : KeySigPair crypto → Bool
signs (KeySigPair.ecdsa pk sig) = bytes_eq sig (9 ∷ pk ∷ [])
signs (KeySigPair.schnorr pk sig) = false

unfoldable spent : Script crypto
unfolding annotate
spent = annotate (
    Terminal.and_v
      (annotate (
        Terminal.verify
          (annotate (Terminal.check (annotate (Terminal.pk_k (BitcoinKey.fullkey 5)))))))
      (annotate (Terminal.after (record { inner = 100 }))))

abbrev interpreter : Interpreter crypto
interpreter = record {
  inner = Inner.script spent ScriptType.wsh;
  stack = Element.push (9 ∷ 5 ∷ []) ∷ [];
  script_code = none;
  sequence = 0;
  lock_time = 120;
  tx_template = none;
}

iter_custom-results_example :
    (n : ℕ) × ((fuel : ℕ)
      → outputs crypto (n + fuel) (iter_custom crypto interpreter signs)
        ≡ results crypto interpreter signs interpreter.inner)
iter_custom-results_example = iter_custom-results crypto interpreter signs

-- The key and the lock time.
abbrev valuation : Policy numbers (bitcoin_key crypto) → Bool
valuation (Policy.key k) = true
valuation (Policy.after n) = true
valuation _ = false

abbrev yielded : List (SatisfiedConstraint crypto)
yielded =
    SatisfiedConstraint.public_key (KeySigPair.ecdsa 5 (9 ∷ 5 ∷ []))
    ∷ SatisfiedConstraint.absolute_timelock 100
    ∷ []

spent_accepted :
    constraints crypto (results crypto interpreter signs interpreter.inner) ≡ some yielded
unfolding spent eval evaluate_pk evaluate_after verify_sersig bytes_eq
spent_accepted = refl

abbrev policy : Policy numbers (bitcoin_key crypto)
policy =
    Policy.thresh 2
      (cons (Policy.key (BitcoinKey.fullkey 5)) (cons (Policy.after (record { inner = 100 })) nil))

spent_lifts : lift Context.segwitv0 spent ≡ ok policy
unfolding spent check_local_validity contains_raw_pkh rust_miniscript.Ext.Timelock.height_and_time
    normalized lifted
spent_lifts = lift-lifted Context.segwitv0 spent

spent-IsTyped : IsTyped crypto spent
unfolding spent
spent-IsTyped = (refl, ((refl, (refl, (refl, tt))), (refl, tt)))

accepted-holds_example : holds valuation policy ≡ true
unfolding spent
accepted-holds_example =
    accepted-holds crypto valuation interpreter signs spent ScriptType.wsh refl refl spent-IsTyped
      Context.segwitv0 policy spent_lifts (results crypto interpreter signs interpreter.inner)
      yielded (iter_custom-results crypto interpreter signs) spent_accepted (refl, (refl, tt))

iter_custom-Genuine_example :
    (n : ℕ) × ((fuel : ℕ)
      → AllYielded crypto
          (Genuine crypto (spend crypto interpreter signs))
          (outputs crypto (n + fuel) (iter_custom crypto interpreter signs)))
iter_custom-Genuine_example = iter_custom-Genuine crypto interpreter signs

iter_custom-settled_example :
    (n : ℕ) × ((fuel : ℕ)
      → settled crypto (outputs crypto (n + fuel) (iter_custom crypto interpreter signs)) ≡ true)
unfolding spent
iter_custom-settled_example =
    iter_custom-settled crypto interpreter signs (tt, ((tt, (tt, (tt, tt))), (tt, tt)))
