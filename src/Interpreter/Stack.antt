-- ===== src/Interpreter/Stack.antt =====
-- `Element` and `Stack` of src/interpreter/stack.rs, a list with the top of the stack first. An
-- operation that changes the stack gives the stack it leaves.
use rust_miniscript.Prelude.{
  Bool, Option, none, some, List, [], ◌∷◌, length, leb, ◌==◌, ◌&&◌, not, ◌||◌, Result, ok, err,
  if◌then◌else◌,
}
use rust_miniscript.Primitives.Locktime.{Bitcoin}
use rust_miniscript.Ext.Leaves.{SigType}
use rust_miniscript.Miniscript.Ast.{Bytes}
use rust_miniscript.Interpreter.Keys.{
  Crypto, BitcoinKey, KeySigPair, HashLockType, SatisfiedConstraint, Error, bytes_eq, verify_sersig,
}

pub data Element : Type 0 where
  satisfied : Element
  dissatisfied : Element
  push : Bytes → Element

abbrev pub Stack : Type 0
Stack = List Element

-- `Element::from` on a slice.
unfoldable pub from_slice : Bytes → Element
unfolding bytes_eq
from_slice v =
    if bytes_eq v (1 ∷ [])
    then Element.satisfied
    else if bytes_eq v []
    then Element.dissatisfied
    else Element.push v

module _ {B : Bitcoin} (C : Crypto B) where
  -- `Option<Result<SatisfiedConstraint, Error>>`.
  abbrev pub Evaluation : Type 0
  Evaluation = Option (Result (Error C) (SatisfiedConstraint C))

  -- The signature on top of the stack is right, or the error of its check.
  abbrev pub signed :
      (KeySigPair C → SatisfiedConstraint C)
      → Stack
      → Result (Error C) (KeySigPair C)
      → Evaluation × Stack
  signed constraint rest (ok key_sig) = (some (ok (constraint key_sig)), Element.satisfied ∷ rest)
  signed constraint rest (err e) = (some (err e), rest)

  module _ (verify_sig : KeySigPair C → Bool) where
    -- What `evaluate_pk` and `evaluate_pkh` do with the signature.
    unfoldable pub evaluate_sig :
        BitcoinKey C → (KeySigPair C → SatisfiedConstraint C) → Stack → Evaluation × Stack
    evaluate_sig pk constraint [] = (some (err Error.unexpected_stack_end), [])
    evaluate_sig pk constraint (Element.dissatisfied ∷ rest) = (none, Element.dissatisfied ∷ rest)
    evaluate_sig pk constraint (Element.push sigser ∷ rest) =
        signed constraint rest (verify_sersig C verify_sig pk sigser)
    evaluate_sig pk constraint (Element.satisfied ∷ rest) =
        (some (err (Error.pk_evaluation_error pk)), rest)

    unfoldable pub evaluate_pk : BitcoinKey C → Stack → Evaluation × Stack
    unfolding evaluate_sig
    evaluate_pk pk st = evaluate_sig pk SatisfiedConstraint.public_key st

    abbrev some_key : {A : Type 0} → (A → BitcoinKey C) → Option A → Option (BitcoinKey C)
    some_key f none = none
    some_key f (some a) = some (f a)

    unfoldable pub bitcoin_key_from_slice : Bytes → SigType → Option (BitcoinKey C)
    bitcoin_key_from_slice sl SigType.schnorr =
        some_key BitcoinKey.x_only_public_key (C.x_only_from_slice sl)
    bitcoin_key_from_slice sl SigType.ecdsa =
        some_key BitcoinKey.fullkey (C.public_key_from_slice sl)

    abbrev pub with_key : Bytes → Stack → Option (BitcoinKey C) → Evaluation × Stack
    with_key pkh rest none = (some (err Error.pubkey_parse_error), rest)
    with_key pkh rest (some pk) = evaluate_sig pk (SatisfiedConstraint.public_key_hash pkh) rest

    unfoldable pub evaluate_pkh : Bytes → SigType → Stack → Evaluation × Stack
    unfolding evaluate_sig bitcoin_key_from_slice
    evaluate_pkh pkh sig_type (Element.push pk ∷ rest) =
        if not (bytes_eq (C.hash160 pk) pkh)
        then (some (err (Error.pk_hash_verify_fail pkh)), rest)
        else with_key pkh rest (bitcoin_key_from_slice pk sig_type)
    evaluate_pkh pkh sig_type (_ ∷ rest) = (some (err Error.unexpected_stack_end), rest)
    evaluate_pkh pkh sig_type [] = (some (err Error.unexpected_stack_end), [])

    abbrev pub of_multi : Bytes → Stack → Result (Error C) (KeySigPair C) → Evaluation × Stack
    of_multi sigser rest (ok key_sig) = (some (ok (SatisfiedConstraint.public_key key_sig)), rest)
    of_multi sigser rest (err _) = (none, Element.push sigser ∷ rest)

    unfoldable pub evaluate_multi : BitcoinKey C → Stack → Evaluation × Stack
    evaluate_multi pk (Element.push sigser ∷ rest) =
        of_multi sigser rest (verify_sersig C verify_sig pk sigser)
    evaluate_multi pk (_ ∷ rest) = (some (err Error.unexpected_stack_boolean), rest)
    evaluate_multi pk [] = (some (err Error.unexpected_stack_end), [])

  -- Two lock times of the same unit are compared by their consensus encoding.
  unfoldable pub evaluate_after : B.LockTime → B.LockTime → Stack → Evaluation × Stack
  evaluate_after n lock_time st =
      if (B.is_block_height n && B.is_block_height lock_time)
        || (B.is_block_time n && B.is_block_time lock_time)
      then (if leb (B.lock_to_consensus_u32 n) (B.lock_to_consensus_u32 lock_time)
          then (some (ok (SatisfiedConstraint.absolute_timelock n)), Element.satisfied ∷ st)
          else (some (err (Error.absolute_lock_time_not_met n)), st))
      else (some (err (Error.absolute_lock_time_comparison_invalid n lock_time)), st)

  abbrev pub implied : C.RelativeLockTime → Stack → Option C.RelativeLockTime → Evaluation × Stack
  implied n st none = (some (err (Error.relative_lock_time_disabled n)), st)
  implied n st (some tx_locktime) =
      if C.is_implied_by n tx_locktime
      then (some (ok (SatisfiedConstraint.relative_timelock n)), Element.satisfied ∷ st)
      else (some (err (Error.relative_lock_time_not_met n)), st)

  unfoldable pub evaluate_older : C.RelativeLockTime → B.Sequence → Stack → Evaluation × Stack
  evaluate_older n sequence st = implied n st (C.to_relative_lock_time sequence)

  -- The body that the four functions on hashes share, with the hash function and its constraint.
  unfoldable pub evaluate_hash : (Bytes → Bytes) → HashLockType → Bytes → Stack → Evaluation × Stack
  evaluate_hash function lock hash (Element.push preimage ∷ rest) =
      if not (length preimage == 32)
      then (some (err Error.hash_preimage_length_mismatch), rest)
      else if bytes_eq (function preimage) hash
      then (some (ok (SatisfiedConstraint.hash_lock lock preimage)), Element.satisfied ∷ rest)
      else (none, Element.dissatisfied ∷ rest)
  evaluate_hash function lock hash (_ ∷ rest) = (some (err Error.unexpected_stack_end), rest)
  evaluate_hash function lock hash [] = (some (err Error.unexpected_stack_end), [])

  unfoldable pub evaluate_sha256 : Bytes → Stack → Evaluation × Stack
  unfolding evaluate_hash
  evaluate_sha256 hash st = evaluate_hash C.sha256 (HashLockType.sha256 hash) hash st

  unfoldable pub evaluate_hash256 : Bytes → Stack → Evaluation × Stack
  unfolding evaluate_hash
  evaluate_hash256 hash st = evaluate_hash C.hash256 (HashLockType.hash256 hash) hash st

  unfoldable pub evaluate_hash160 : Bytes → Stack → Evaluation × Stack
  unfolding evaluate_hash
  evaluate_hash160 hash st = evaluate_hash C.hash160 (HashLockType.hash160 hash) hash st

  unfoldable pub evaluate_ripemd160 : Bytes → Stack → Evaluation × Stack
  unfolding evaluate_hash
  evaluate_ripemd160 hash st = evaluate_hash C.ripemd160 (HashLockType.ripemd160 hash) hash st
