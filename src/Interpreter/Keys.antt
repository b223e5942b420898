-- ===== src/Interpreter/Keys.antt =====
-- What the interpreter takes from the bitcoin crate, as an interface, and the keys, constraints and
-- errors of src/interpreter/mod.rs and error.rs. `to_pubkeyhash` is in src/lib.rs.
use rust_miniscript.Prelude.{
  Bool, true, false, not, Option, [], ◌∷◌, ◌==◌, ◌&&◌, Result, ok, err, ◌>>=◌, if◌then◌else◌,
}
use rust_miniscript.Primitives.Locktime.{Bitcoin}
use rust_miniscript.Ext.Leaves.{SigType}
use rust_miniscript.Miniscript.Ast.{MiniscriptKey, Bytes}

-- Keys and signatures with their parsers, the hash functions, and `bitcoin::relative::LockTime`.
pub record Crypto (B : Bitcoin) : Type 1 where
  pub PublicKey : Type 0
  pub XOnlyPublicKey : Type 0
  pub EcdsaSignature : Type 0
  pub SchnorrSignature : Type 0
  pub EcdsaError : Type 0
  pub SchnorrError : Type 0
  pub RelativeLockTime : Type 0
  pub compressed : PublicKey → Bool
  pub to_bytes : PublicKey → Bytes
  pub x_only : PublicKey → XOnlyPublicKey
  pub serialize : XOnlyPublicKey → Bytes
  pub public_key_from_slice : Bytes → Option PublicKey
  pub x_only_from_slice : Bytes → Option XOnlyPublicKey
  pub ecdsa_from_slice : Bytes → Result EcdsaError EcdsaSignature
  pub schnorr_from_slice : Bytes → Result SchnorrError SchnorrSignature
  pub sha256 : Bytes → Bytes
  pub hash256 : Bytes → Bytes
  pub hash160 : Bytes → Bytes
  pub ripemd160 : Bytes → Bytes
  pub to_relative_lock_time : B.Sequence → Option RelativeLockTime
  pub is_implied_by : RelativeLockTime → RelativeLockTime → Bool

-- `==` on byte slices.
unfoldable pub bytes_eq : Bytes → Bytes → Bool
bytes_eq [] [] = true
bytes_eq (a ∷ rest) (b ∷ others) = a == b && bytes_eq rest others
bytes_eq _ _ = false

pub data HashLockType : Type 0 where
  sha256 : Bytes → HashLockType
  hash256 : Bytes → HashLockType
  hash160 : Bytes → HashLockType
  ripemd160 : Bytes → HashLockType

module _ {B : Bitcoin} (C : Crypto B) where
  pub data BitcoinKey : Type 0 where
    fullkey : C.PublicKey → BitcoinKey
    x_only_public_key : C.XOnlyPublicKey → BitcoinKey

  pub data KeySigPair : Type 0 where
    ecdsa : C.PublicKey → C.EcdsaSignature → KeySigPair
    schnorr : C.XOnlyPublicKey → C.SchnorrSignature → KeySigPair

  pub data SatisfiedConstraint : Type 0 where
    tx_template : Bytes → SatisfiedConstraint
    public_key : KeySigPair → SatisfiedConstraint
    public_key_hash : Bytes → KeySigPair → SatisfiedConstraint
    hash_lock : HashLockType → Bytes → SatisfiedConstraint
    relative_timelock : C.RelativeLockTime → SatisfiedConstraint
    absolute_timelock : B.LockTime → SatisfiedConstraint

  -- The errors that the iterator returns.
  pub data Error : Type 0 where
    absolute_lock_time_not_met : B.LockTime → Error
    absolute_lock_time_comparison_invalid : B.LockTime → B.LockTime → Error
    could_not_evaluate : Error
    ecdsa_sig : C.EcdsaError → Error
    hash_preimage_length_mismatch : Error
    insufficient_signatures_multi_sig : Error
    invalid_ecdsa_signature : C.PublicKey → Error
    invalid_schnorr_signature : C.XOnlyPublicKey → Error
    missing_extra_zero_multi_sig : Error
    multi_sig_evaluation_error : Error
    pk_evaluation_error : BitcoinKey → Error
    pk_hash_verify_fail : Bytes → Error
    pubkey_parse_error : Error
    relative_lock_time_not_met : C.RelativeLockTime → Error
    relative_lock_time_disabled : C.RelativeLockTime → Error
    schnorr_sig : C.SchnorrError → Error
    script_satisfaction_error : Error
    tx_template_hash_wrong : Error
    unexpected_stack_boolean : Error
    unexpected_stack_end : Error
    unexpected_stack_element_push : Error
    verify_failed : Error

  abbrev is_uncompressed : BitcoinKey → Bool
  is_uncompressed (BitcoinKey.fullkey pk) = not (C.compressed pk)
  is_uncompressed (BitcoinKey.x_only_public_key pk) = false

  -- `BitcoinKey` as a `MiniscriptKey`; `is_x_only_key` is the trait's default.
  abbrev pub bitcoin_key : MiniscriptKey
  bitcoin_key = record {
    Pk = BitcoinKey;
    is_uncompressed = is_uncompressed;
    is_x_only_key = λ pk. false;
    Sha256 = Bytes;
    Hash256 = Bytes;
    Ripemd160 = Bytes;
    Hash160 = Bytes;
  }

  -- An x-only key stands for the full key with the prefix 2.
  unfoldable pub to_pubkeyhash : BitcoinKey → SigType → Bytes
  to_pubkeyhash (BitcoinKey.fullkey pk) SigType.ecdsa = C.hash160 (C.to_bytes pk)
  to_pubkeyhash (BitcoinKey.fullkey pk) SigType.schnorr = C.hash160 (C.serialize (C.x_only pk))
  to_pubkeyhash (BitcoinKey.x_only_public_key pk) SigType.ecdsa = C.hash160 (2 ∷ C.serialize pk)
  to_pubkeyhash (BitcoinKey.x_only_public_key pk) SigType.schnorr = C.hash160 (C.serialize pk)

  -- `?` on a result with another error type.
  abbrev pub from_error : {A F : Type 0} → (F → Error) → Result F A → Result Error A
  from_error f (err e) = err (f e)
  from_error f (ok a) = ok a

  unfoldable pub verify_sersig : (KeySigPair → Bool) → BitcoinKey → Bytes → Result Error KeySigPair
  verify_sersig verify_sig (BitcoinKey.fullkey pk) sigser = do
    sig ← from_error Error.ecdsa_sig (C.ecdsa_from_slice sigser)
    let key_sig_pair = KeySigPair.ecdsa pk sig
    if verify_sig key_sig_pair then ok key_sig_pair else err (Error.invalid_ecdsa_signature pk)
  verify_sersig verify_sig (BitcoinKey.x_only_public_key pk) sigser = do
    sig ← from_error Error.schnorr_sig (C.schnorr_from_slice sigser)
    let key_sig_pair = KeySigPair.schnorr pk sig
    if verify_sig key_sig_pair then ok key_sig_pair else err (Error.invalid_schnorr_signature pk)
