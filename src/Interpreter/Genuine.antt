-- ===== src/Interpreter/Genuine.antt =====
-- The constraints that src/interpreter/mod.rs yields, against the transaction and the witness.
pub mod Recursion
use rust_miniscript.Prelude.{
  ◌-◌, Bool, true, false, not, ◌&&◌, ◌||◌, Option, none, some, [], ◌∷◌, length, leb, ◌==◌, ok, err,
  if◌then◌else◌, ◌≡◌, refl, sym, ap, subst, ◌∙◌,
}
use rust_miniscript.Primitives.Locktime.{Bitcoin}
use rust_miniscript.Miniscript.Ast.{Bytes}
use rust_miniscript.Interpreter.Keys.{
  Crypto, BitcoinKey, HashLockType, SatisfiedConstraint, Error, bytes_eq,
}
use rust_miniscript.Interpreter.Stack.{
  Element, Stack, Evaluation, with_key, implied, evaluate_pk, evaluate_pkh, evaluate_multi,
  bitcoin_key_from_slice, evaluate_after, evaluate_older, evaluate_hash,
}
use rust_miniscript.Interpreter.Machine.{template_is}
use rust_miniscript.Interpreter.Evaluator.{Run, Spend, and_then, leaf, boolean}
use rust_miniscript.Interpreter.Sound.Leaves.{
  key_of, evaluate_sig-constraint, evaluate_multi-constraint,
}

tested :
    {A P : Type 0} (b : Bool) (x y z : A)
    → (if b then x else y) ≡ z
    → (b ≡ true → x ≡ z → P)
    → (b ≡ false → y ≡ z → P)
    → P
tested true x y z h yes_case no_case = yes_case refl h
tested false x y z h yes_case no_case = no_case refl h

passed_test : (b : Bool) → not b ≡ false → b ≡ true
passed_test true h = refl
passed_test false h = cc

module _ {B : Bitcoin} (C : Crypto B) where
  abbrev hashed : HashLockType → Bytes → Bytes
  hashed (HashLockType.sha256 h) p = C.sha256 p
  hashed (HashLockType.hash256 h) p = C.hash256 p
  hashed (HashLockType.hash160 h) p = C.hash160 p
  hashed (HashLockType.ripemd160 h) p = C.ripemd160 p

  abbrev digest : HashLockType → Bytes
  digest (HashLockType.sha256 h) = h
  digest (HashLockType.hash256 h) = h
  digest (HashLockType.hash160 h) = h
  digest (HashLockType.ripemd160 h) = h

  module _ (env : Spend C) where
    -- What a constraint says of the transaction and the witness: a signature that the check accepts,
    -- for a key hash with the bytes of its key, a preimage of 32 bytes, a lock time of the same unit
    -- that has passed, and the template of the transaction.
    abbrev pub Genuine : SatisfiedConstraint C → Type 0
    Genuine (SatisfiedConstraint.tx_template h) = template_is C env.tx_template h ≡ true
    Genuine (SatisfiedConstraint.public_key ks) = env.verify_sig ks ≡ true
    Genuine (SatisfiedConstraint.public_key_hash h ks) =
        (env.verify_sig ks ≡ true)
        × ((b : Bytes) × (bytes_eq (C.hash160 b) h ≡ true)
            × (bitcoin_key_from_slice C env.verify_sig b env.sig_type ≡ some (key_of C ks)))
    Genuine (SatisfiedConstraint.hash_lock lock p) =
        ((length p == 32) ≡ true) × (bytes_eq (hashed lock p) (digest lock) ≡ true)
    Genuine (SatisfiedConstraint.relative_timelock n) =
        (l : C.RelativeLockTime) × (C.to_relative_lock_time env.sequence ≡ some l)
        × (C.is_implied_by n l ≡ true)
    Genuine (SatisfiedConstraint.absolute_timelock n) =
        (((B.is_block_height n && B.is_block_height env.lock_time)
            || (B.is_block_time n && B.is_block_time env.lock_time))
          ≡ true)
        × (leb (B.lock_to_consensus_u32 n) (B.lock_to_consensus_u32 env.lock_time) ≡ true)

    -- All constraints that a run yields, also before an error.
    abbrev pub AllGenuine : Run C → Type 0
    AllGenuine (Run.done st) = Unit
    AllGenuine (Run.yields c r) = Genuine c × AllGenuine r
    AllGenuine (Run.fails e) = Unit
    AllGenuine Run.panics = Unit

    pub and_then-AllGenuine :
        (r : Run C) (f : Stack → Run C)
        → AllGenuine r
        → ((st : Stack) → AllGenuine (f st))
        → AllGenuine (and_then C r f)
    and_then-AllGenuine (Run.done st) f p q = q st
    and_then-AllGenuine (Run.yields c r) f p q = (p.0, and_then-AllGenuine r f p.1 q)
    and_then-AllGenuine (Run.fails e) f p q = tt
    and_then-AllGenuine Run.panics f p q = tt

    pub boolean-AllGenuine :
        (f g : Stack → Run C)
        → ((st : Stack) → AllGenuine (f st))
        → ((st : Stack) → AllGenuine (g st))
        → (st : Stack) → AllGenuine (boolean C f g st)
    boolean-AllGenuine f g p q [] = tt
    boolean-AllGenuine f g p q (Element.satisfied ∷ st) = q st
    boolean-AllGenuine f g p q (Element.dissatisfied ∷ st) = p st
    boolean-AllGenuine f g p q (Element.push b ∷ st) = tt

    -- An evaluation whose constraint, if any, is genuine.
    pub leaf-AllGenuine :
        (r : Evaluation C × Stack)
        → ((c : SatisfiedConstraint C) (st : Stack) → r ≡ (some (ok c), st) → Genuine c)
        → AllGenuine (leaf C r)
    leaf-AllGenuine (none, st) p = tt
    leaf-AllGenuine (some (ok c), st) p = (p c st refl, tt)
    leaf-AllGenuine (some (err e), st) p = tt

    pub evaluate_pk-Genuine :
        (pk : BitcoinKey C) (old : Stack) (c : SatisfiedConstraint C) (st : Stack)
        → evaluate_pk C env.verify_sig pk old ≡ (some (ok c), st)
        → Genuine c
    unfolding evaluate_pk
    evaluate_pk-Genuine pk old c st h =
        let (ks, same, key, valid) =
          evaluate_sig-constraint C env.verify_sig pk SatisfiedConstraint.public_key old st c h in
        subst Genuine (sym same) valid

    pub evaluate_multi-Genuine :
        (pk : BitcoinKey C) (old : Stack) (c : SatisfiedConstraint C) (st : Stack)
        → evaluate_multi C env.verify_sig pk old ≡ (some (ok c), st)
        → Genuine c
    evaluate_multi-Genuine pk old c st h =
        let (ks, same, key, valid) = evaluate_multi-constraint C env.verify_sig pk old st c h in
        subst Genuine (sym same) valid

    pub with_key-Genuine :
        (pkh b : Bytes) (rest : Stack) (o : Option (BitcoinKey C)) (c : SatisfiedConstraint C)
        (st : Stack)
        → bytes_eq (C.hash160 b) pkh ≡ true
        → bitcoin_key_from_slice C env.verify_sig b env.sig_type ≡ o
        → with_key C env.verify_sig pkh rest o ≡ (some (ok c), st)
        → Genuine c
    with_key-Genuine pkh b rest none c st e p h = cc
    with_key-Genuine pkh b rest (some pk) c st e p h =
        let (ks, same, key, valid) =
          evaluate_sig-constraint C env.verify_sig pk (SatisfiedConstraint.public_key_hash pkh) rest
            st c h in
        subst Genuine (sym same) (valid, (b, e, p ∙ ap some (sym key)))

    pub evaluate_pkh-Genuine :
        (pkh : Bytes) (old : Stack) (c : SatisfiedConstraint C) (st : Stack)
        → evaluate_pkh C env.verify_sig pkh env.sig_type old ≡ (some (ok c), st)
        → Genuine c
    unfolding evaluate_pkh
    evaluate_pkh-Genuine pkh [] c st h = cc
    evaluate_pkh-Genuine pkh (Element.satisfied ∷ rest) c st h = cc
    evaluate_pkh-Genuine pkh (Element.dissatisfied ∷ rest) c st h = cc
    evaluate_pkh-Genuine pkh (Element.push b ∷ rest) c st h =
        tested (not (bytes_eq (C.hash160 b) pkh)) (some (err (Error.pk_hash_verify_fail pkh)), rest)
          (with_key C env.verify_sig pkh rest
            (bitcoin_key_from_slice C env.verify_sig b env.sig_type))
          (some (ok c), st) h (λ _ failed. cc)
          (λ e passed.
            with_key-Genuine pkh b rest (bitcoin_key_from_slice C env.verify_sig b env.sig_type) c
              st (passed_test (bytes_eq (C.hash160 b) pkh) e) refl passed)

    pub evaluate_after-Genuine :
        (n : B.LockTime) (old : Stack) (c : SatisfiedConstraint C) (st : Stack)
        → evaluate_after C n env.lock_time old ≡ (some (ok c), st)
        → Genuine c
    unfolding evaluate_after
    evaluate_after-Genuine n old c st h =
        let units =
          (B.is_block_height n && B.is_block_height env.lock_time)
          || (B.is_block_time n && B.is_block_time env.lock_time) in
        let met = leb (B.lock_to_consensus_u32 n) (B.lock_to_consensus_u32 env.lock_time) in
        let kept : Evaluation C × Stack =
          (some (ok (SatisfiedConstraint.absolute_timelock n)), Element.satisfied ∷ old) in
        let late : Evaluation C × Stack = (some (err (Error.absolute_lock_time_not_met n)), old) in
        tested units (if met then kept else late)
          (some (err (Error.absolute_lock_time_comparison_invalid n env.lock_time)), old)
          (some (ok c), st) h
          (λ u same.
            tested met kept late (some (ok c), st) same
              (λ m p.
                let one : SatisfiedConstraint.absolute_timelock n ≡ c = cc in
                subst Genuine one (u, m))
              (λ _ failed. cc))
          (λ _ failed. cc)

    pub implied-Genuine :
        (n : C.RelativeLockTime) (old : Stack) (o : Option C.RelativeLockTime)
        (c : SatisfiedConstraint C) (st : Stack)
        → C.to_relative_lock_time env.sequence ≡ o
        → implied C n old o ≡ (some (ok c), st)
        → Genuine c
    implied-Genuine n old none c st e h = cc
    implied-Genuine n old (some l) c st e h =
        tested (C.is_implied_by n l)
          (some (ok (SatisfiedConstraint.relative_timelock n)), Element.satisfied ∷ old)
          (some (err (Error.relative_lock_time_not_met n)), old) (some (ok c), st) h
          (λ m p.
            let one : SatisfiedConstraint.relative_timelock n ≡ c = cc in
            subst Genuine one (l, e, m))
          (λ _ failed. cc)

    pub evaluate_older-Genuine :
        (n : C.RelativeLockTime) (old : Stack) (c : SatisfiedConstraint C) (st : Stack)
        → evaluate_older C n env.sequence old ≡ (some (ok c), st)
        → Genuine c
    unfolding evaluate_older
    evaluate_older-Genuine n old c st h =
        implied-Genuine n old (C.to_relative_lock_time env.sequence) c st refl h

    pub evaluate_hash-Genuine :
        (lock : HashLockType) (old : Stack) (c : SatisfiedConstraint C) (st : Stack)
        → evaluate_hash C (hashed lock) lock (digest lock) old ≡ (some (ok c), st)
        → Genuine c
    unfolding evaluate_hash
    evaluate_hash-Genuine lock [] c st h = cc
    evaluate_hash-Genuine lock (Element.satisfied ∷ rest) c st h = cc
    evaluate_hash-Genuine lock (Element.dissatisfied ∷ rest) c st h = cc
    evaluate_hash-Genuine lock (Element.push p ∷ rest) c st h =
        let met = bytes_eq (hashed lock p) (digest lock) in
        let kept : Evaluation C × Stack =
          (some (ok (SatisfiedConstraint.hash_lock lock p)), Element.satisfied ∷ rest) in
        let unmet : Evaluation C × Stack = (none, Element.dissatisfied ∷ rest) in
        tested (not (length p == 32)) (some (err Error.hash_preimage_length_mismatch), rest)
          (if met then kept else unmet) (some (ok c), st) h (λ _ failed. cc)
          (λ sized rest'.
            tested met kept unmet (some (ok c), st) rest'
              (λ m q.
                let one : SatisfiedConstraint.hash_lock lock p ≡ c = cc in
                subst Genuine one (passed_test (length p == 32) sized, m))
              (λ _ failed. cc))
