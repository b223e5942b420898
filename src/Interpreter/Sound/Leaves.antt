-- ===== src/Interpreter/Sound/Leaves.antt =====
-- What the leaves of src/interpreter/stack.rs leave on the stack, where the constraints they yield
-- are granted by a policy's valuation.
use rust_miniscript.Prelude.{
  Bool, true, false, not, Bool-cases, Option, none, some, [], ◌∷◌, length, leb, ◌==◌, ◌&&◌, ◌||◌,
  Result, ok, err, >>=-eq-ok, if◌then◌else◌, inl, inr, ◌≡◌, refl, sym, ap, subst,
}
use rust_miniscript.Primitives.Locktime.{Bitcoin, AbsLockTime, RelLockTime}
use rust_miniscript.Ext.Leaves.{SigType}
use rust_miniscript.Types.Kinds.{Base}
use rust_miniscript.Miniscript.Ast.{Bytes}
use rust_miniscript.Policy.Semantic.{Policy}
use rust_miniscript.Interpreter.Keys.{
  Crypto, BitcoinKey, KeySigPair, HashLockType, SatisfiedConstraint, Error, bytes_eq, bitcoin_key,
  to_pubkeyhash, verify_sersig, from_error,
}
use rust_miniscript.Interpreter.Stack.{
  Element, Stack, Evaluation, signed, of_multi, evaluate_multi, with_key, implied, evaluate_sig,
  evaluate_pk, evaluate_pkh, bitcoin_key_from_slice, evaluate_after, evaluate_older, evaluate_hash,
}
use rust_miniscript.Interpreter.Evaluator.{Run, and_then, leaf}

-- A fragment that leaves a Boolean is satisfied only where `sp` holds.
abbrev pub Shown : Bool → Stack → Type 0
Shown sp (Element.satisfied ∷ st) = sp ≡ true
Shown sp (Element.dissatisfied ∷ st) = Unit
Shown sp (Element.push _ ∷ st) = ⊥
Shown sp [] = ⊥

-- What a fragment of a base leaves: one of the base V only where `sp` holds.
abbrev pub Means : Base → Bool → Stack → Type 0
Means Base.v sp st = sp ≡ true
Means Base.b sp st = Shown sp st
Means Base.k sp st = Shown sp st
Means Base.w sp st = Shown sp st

pub Shown-map : (sp sq : Bool) → (sp ≡ true → sq ≡ true) → (st : Stack) → Shown sp st → Shown sq st
Shown-map sp sq f (Element.satisfied ∷ st) h = f h
Shown-map sp sq f (Element.dissatisfied ∷ st) h = tt
Shown-map sp sq f (Element.push b ∷ st) h = absurd h
Shown-map sp sq f [] h = absurd h

module _ {B : Bitcoin} (C : Crypto B) where
  abbrev pub key_of : KeySigPair C → BitcoinKey C
  key_of (KeySigPair.ecdsa pk sig) = BitcoinKey.fullkey pk
  key_of (KeySigPair.schnorr pk sig) = BitcoinKey.x_only_public_key pk

  checked :
      (verify_sig : KeySigPair C → Bool) (p ks : KeySigPair C) (e : Error C)
      → Path (Result (Error C) (KeySigPair C)) (if verify_sig p then ok p else err e) (ok ks)
      → (p ≡ ks) × (verify_sig ks ≡ true)
  checked verify_sig p ks e h = elim (Bool-cases (verify_sig p)) [
    | inl t ↦ let same : p ≡ ks = cc in (same, subst (λ q. verify_sig q ≡ true) same t)
    | inr f ↦ cc
  ]

  pub verify_sersig-key :
      (verify_sig : KeySigPair C → Bool) (pk : BitcoinKey C) (sigser : Bytes) (ks : KeySigPair C)
      → verify_sersig C verify_sig pk sigser ≡ ok ks
      → (key_of ks ≡ pk) × (verify_sig ks ≡ true)
  unfolding verify_sersig
  verify_sersig-key verify_sig (BitcoinKey.fullkey pk) sigser ks h =
      let (sig, _, rest) =
        >>=-eq-ok (from_error C Error.ecdsa_sig (C.ecdsa_from_slice sigser)) _ h in
      let (same, passed) =
        checked verify_sig (KeySigPair.ecdsa pk sig) ks (Error.invalid_ecdsa_signature pk) rest in
      (ap key_of (sym same), passed)
  verify_sersig-key verify_sig (BitcoinKey.x_only_public_key pk) sigser ks h =
      let (sig, _, rest) =
        >>=-eq-ok (from_error C Error.schnorr_sig (C.schnorr_from_slice sigser)) _ h in
      let (same, passed) =
        checked verify_sig (KeySigPair.schnorr pk sig) ks (Error.invalid_schnorr_signature pk)
          rest in
      (ap key_of (sym same), passed)

  signed-constraint :
      (constraint : KeySigPair C → SatisfiedConstraint C) (rest st : Stack)
      (r : Result (Error C) (KeySigPair C)) (c : SatisfiedConstraint C)
      → Path (Evaluation C × Stack) (signed C constraint rest r) (some (ok c), st)
      → (ks : KeySigPair C) × (r ≡ ok ks) × (c ≡ constraint ks)
  signed-constraint constraint rest st (ok ks) c h = (ks, refl, cc)
  signed-constraint constraint rest st (err e) c h = cc

  -- A signature check yields no constraint but that of its key, with a signature that is right.
  pub evaluate_sig-constraint :
      (verify_sig : KeySigPair C → Bool) (pk : BitcoinKey C)
      (constraint : KeySigPair C → SatisfiedConstraint C) (old st : Stack)
      (c : SatisfiedConstraint C)
      → evaluate_sig C verify_sig pk constraint old ≡ (some (ok c), st)
      → (ks : KeySigPair C) × (c ≡ constraint ks) × (key_of ks ≡ pk) × (verify_sig ks ≡ true)
  unfolding evaluate_sig
  evaluate_sig-constraint verify_sig pk constraint [] st c h = cc
  evaluate_sig-constraint verify_sig pk constraint (Element.dissatisfied ∷ rest) st c h = cc
  evaluate_sig-constraint verify_sig pk constraint (Element.satisfied ∷ rest) st c h = cc
  evaluate_sig-constraint verify_sig pk constraint (Element.push sigser ∷ rest) st c h =
      let (ks, e, same) =
        signed-constraint constraint rest st (verify_sersig C verify_sig pk sigser) c h in
      let (key, valid) = verify_sersig-key verify_sig pk sigser ks e in (ks, same, key, valid)

  of_multi-constraint :
      (verify_sig : KeySigPair C → Bool) (sigser : Bytes) (rest st : Stack)
      (r : Result (Error C) (KeySigPair C)) (c : SatisfiedConstraint C)
      → Path (Evaluation C × Stack) (of_multi C verify_sig sigser rest r) (some (ok c), st)
      → (ks : KeySigPair C) × (r ≡ ok ks) × (c ≡ SatisfiedConstraint.public_key ks)
  of_multi-constraint verify_sig sigser rest st (ok ks) c h = (ks, refl, cc)
  of_multi-constraint verify_sig sigser rest st (err e) c h = cc

  pub evaluate_multi-constraint :
      (verify_sig : KeySigPair C → Bool) (pk : BitcoinKey C) (old st : Stack)
      (c : SatisfiedConstraint C)
      → evaluate_multi C verify_sig pk old ≡ (some (ok c), st)
      → (ks : KeySigPair C) × (c ≡ SatisfiedConstraint.public_key ks)
        × (key_of ks ≡ pk)
        × (verify_sig ks ≡ true)
  unfolding evaluate_multi
  evaluate_multi-constraint verify_sig pk [] st c h = cc
  evaluate_multi-constraint verify_sig pk (Element.dissatisfied ∷ rest) st c h = cc
  evaluate_multi-constraint verify_sig pk (Element.satisfied ∷ rest) st c h = cc
  evaluate_multi-constraint verify_sig pk (Element.push sigser ∷ rest) st c h =
      let (ks, e, same) =
        of_multi-constraint verify_sig sigser rest st (verify_sersig C verify_sig pk sigser) c h in
      let (key, valid) = verify_sersig-key verify_sig pk sigser ks e in (ks, same, key, valid)

  module _ (sig_type : SigType) (v : Policy B (bitcoin_key C) → Bool) where
    -- The valuation grants a constraint where it holds of each part of a policy that the constraint
    -- stands for: a key hash for all keys with that hash, a relative lock time for all sequence
    -- numbers of that lock time.
    abbrev pub Granted : SatisfiedConstraint C → Type 0
    Granted (SatisfiedConstraint.tx_template h) = v (Policy.tx_template h) ≡ true
    Granted (SatisfiedConstraint.public_key ks) = v (Policy.key (key_of ks)) ≡ true
    Granted (SatisfiedConstraint.public_key_hash h ks) =
        (pk : BitcoinKey C) → to_pubkeyhash C pk sig_type ≡ h → v (Policy.key pk) ≡ true
    Granted (SatisfiedConstraint.hash_lock (HashLockType.sha256 h) p) = v (Policy.sha256 h) ≡ true
    Granted (SatisfiedConstraint.hash_lock (HashLockType.hash256 h) p) = v (Policy.hash256 h) ≡ true
    Granted (SatisfiedConstraint.hash_lock (HashLockType.hash160 h) p) = v (Policy.hash160 h) ≡ true
    Granted (SatisfiedConstraint.hash_lock (HashLockType.ripemd160 h) p) =
        v (Policy.ripemd160 h) ≡ true
    Granted (SatisfiedConstraint.relative_timelock n) =
        (t : RelLockTime B) → C.to_relative_lock_time t.inner ≡ some n → v (Policy.older t) ≡ true
    Granted (SatisfiedConstraint.absolute_timelock n) =
        v (Policy.after (record { inner = n })) ≡ true

    -- The run ends with a stack, and all its constraints are granted.
    abbrev pub Leaves : Run C → Stack → Type 0
    Leaves (Run.done st) st' = st ≡ st'
    Leaves (Run.yields c r) st' = Granted c × Leaves r st'
    Leaves (Run.fails e) st' = ⊥
    Leaves Run.panics st' = ⊥

    pub and_then-Leaves :
        (r : Run C) (f : Stack → Run C) (st : Stack)
        → Leaves (and_then C r f) st
        → (mid : Stack) × Leaves r mid × Leaves (f mid) st
    and_then-Leaves (Run.done mid) f st h = (mid, refl, h)
    and_then-Leaves (Run.yields c r) f st (g, h) =
        let (mid, first, second) = and_then-Leaves r f st h in (mid, (g, first), second)
    and_then-Leaves (Run.fails e) f st h = absurd h
    and_then-Leaves Run.panics f st h = absurd h

    -- A run under a test.
    pub choose-Leaves :
        {P : Type 0} (b : Bool) (x y : Run C) (st : Stack)
        → (b ≡ true → Leaves x st → P)
        → (b ≡ false → Leaves y st → P)
        → Leaves (if b then x else y) st
        → P
    choose-Leaves true x y st yes_case no_case h = yes_case refl h
    choose-Leaves false x y st yes_case no_case h = no_case refl h

    -- A leaf under a test.
    if-Leaves :
        {P : Type 0} (b : Bool) (x y : Evaluation C × Stack) (st : Stack)
        → (b ≡ true → Leaves (leaf C x) st → P)
        → (b ≡ false → Leaves (leaf C y) st → P)
        → Leaves (leaf C (if b then x else y)) st
        → P
    if-Leaves true x y st yes_case no_case h = yes_case refl h
    if-Leaves false x y st yes_case no_case h = no_case refl h

    signed-Shown :
        (constraint : KeySigPair C → SatisfiedConstraint C) (rest : Stack)
        (r : Result (Error C) (KeySigPair C)) (sp : Bool) (st : Stack)
        → ((ks : KeySigPair C) → r ≡ ok ks → Granted (constraint ks) → sp ≡ true)
        → Leaves (leaf C (signed C constraint rest r)) st
        → Shown sp st
    signed-Shown constraint rest (ok ks) sp st grants (g, h) = subst (Shown sp) h (grants ks refl g)
    signed-Shown constraint rest (err e) sp st grants h = absurd h

    evaluate_sig-Shown :
        (verify_sig : KeySigPair C → Bool) (pk : BitcoinKey C)
        (constraint : KeySigPair C → SatisfiedConstraint C) (old : Stack) (sp : Bool) (st : Stack)
        → ((ks : KeySigPair C) → key_of ks ≡ pk → Granted (constraint ks) → sp ≡ true)
        → Leaves (leaf C (evaluate_sig C verify_sig pk constraint old)) st
        → Shown sp st
    unfolding evaluate_sig
    evaluate_sig-Shown verify_sig pk constraint [] sp st grants h = absurd h
    evaluate_sig-Shown verify_sig pk constraint (Element.dissatisfied ∷ rest) sp st grants h =
        subst (Shown sp) h tt
    evaluate_sig-Shown verify_sig pk constraint (Element.satisfied ∷ rest) sp st grants h = absurd h
    evaluate_sig-Shown verify_sig pk constraint (Element.push sigser ∷ rest) sp st grants h =
        signed-Shown constraint rest (verify_sersig C verify_sig pk sigser) sp st
          (λ ks e g. grants ks (verify_sersig-key verify_sig pk sigser ks e).0 g) h

    pub evaluate_pk-Shown :
        (verify_sig : KeySigPair C → Bool) (pk : BitcoinKey C) (old st : Stack)
        → Leaves (leaf C (evaluate_pk C verify_sig pk old)) st
        → Shown (v (Policy.key pk)) st
    unfolding evaluate_pk
    evaluate_pk-Shown verify_sig pk old st h =
        evaluate_sig-Shown verify_sig pk SatisfiedConstraint.public_key old (v (Policy.key pk)) st
          (λ ks e g. subst (λ k. v (Policy.key k) ≡ true) e g) h

    with_key-Shown :
        (verify_sig : KeySigPair C → Bool) (pkh : Bytes) (rest : Stack) (o : Option (BitcoinKey C))
        (sp : Bool) (st : Stack)
        → ((ks : KeySigPair C) → Granted (SatisfiedConstraint.public_key_hash pkh ks) → sp ≡ true)
        → Leaves (leaf C (with_key C verify_sig pkh rest o)) st
        → Shown sp st
    with_key-Shown verify_sig pkh rest none sp st grants h = absurd h
    with_key-Shown verify_sig pkh rest (some pk) sp st grants h =
        evaluate_sig-Shown verify_sig pk (SatisfiedConstraint.public_key_hash pkh) rest sp st
          (λ ks e g. grants ks g) h

    pub evaluate_pkh-Shown :
        (verify_sig : KeySigPair C → Bool) (pk : BitcoinKey C) (old st : Stack)
        → Leaves (leaf C (evaluate_pkh C verify_sig (to_pubkeyhash C pk sig_type) sig_type old)) st
        → Shown (v (Policy.key pk)) st
    unfolding evaluate_pkh
    evaluate_pkh-Shown verify_sig pk [] st h = absurd h
    evaluate_pkh-Shown verify_sig pk (Element.satisfied ∷ rest) st h = absurd h
    evaluate_pkh-Shown verify_sig pk (Element.dissatisfied ∷ rest) st h = absurd h
    evaluate_pkh-Shown verify_sig pk (Element.push b ∷ rest) st h =
        if-Leaves (not (bytes_eq (C.hash160 b) (to_pubkeyhash C pk sig_type))) _ _ st
          (λ _ failed. absurd failed)
          (λ _ passed.
            with_key-Shown verify_sig (to_pubkeyhash C pk sig_type) rest
              (bitcoin_key_from_slice C verify_sig b sig_type) (v (Policy.key pk)) st
              (λ ks g. g pk refl) passed)
          h

    -- An evaluation that pushes a 1 with a constraint, or fails.
    pub evaluate_after-Shown :
        (n : AbsLockTime B) (lock_time : B.LockTime) (old st : Stack)
        → Leaves (leaf C (evaluate_after C n.inner lock_time old)) st
        → Shown (v (Policy.after n)) st
    unfolding evaluate_after
    evaluate_after-Shown n lock_time old st h =
        let units =
          (B.is_block_height n.inner && B.is_block_height lock_time)
          || (B.is_block_time n.inner && B.is_block_time lock_time) in
        let met = leb (B.lock_to_consensus_u32 n.inner) (B.lock_to_consensus_u32 lock_time) in
        let kept : Evaluation C × Stack =
          (some (ok (SatisfiedConstraint.absolute_timelock n.inner)), Element.satisfied ∷ old) in
        if-Leaves units
          (if met then kept else (some (err (Error.absolute_lock_time_not_met n.inner)), old)) _ st
          (λ _ same.
            if-Leaves met kept _ st (λ _ p. subst (Shown (v (Policy.after n))) p.1 p.0)
              (λ _ failed. absurd failed) same)
          (λ _ failed. absurd failed) h

    implied-Shown :
        (t : RelLockTime B) (n : C.RelativeLockTime) (o : Option C.RelativeLockTime)
        (old st : Stack)
        → C.to_relative_lock_time t.inner ≡ some n
        → Leaves (leaf C (implied C n old o)) st
        → Shown (v (Policy.older t)) st
    implied-Shown t n none old st e h = absurd h
    implied-Shown t n (some l) old st e h =
        if-Leaves (C.is_implied_by n l) _ _ st
          (λ _ met. subst (Shown (v (Policy.older t))) met.1 (met.0 t e))
          (λ _ failed. absurd failed) h

    pub evaluate_older-Shown :
        (t : RelLockTime B) (n : C.RelativeLockTime) (sequence : B.Sequence) (old st : Stack)
        → C.to_relative_lock_time t.inner ≡ some n
        → Leaves (leaf C (evaluate_older C n sequence old)) st
        → Shown (v (Policy.older t)) st
    unfolding evaluate_older
    evaluate_older-Shown t n sequence old st e h =
        implied-Shown t n (C.to_relative_lock_time sequence) old st e h

    pub evaluate_hash-Shown :
        (function : Bytes → Bytes) (lock : HashLockType) (hash : Bytes) (old : Stack) (sp : Bool)
        (st : Stack)
        → ((p : Bytes) → Granted (SatisfiedConstraint.hash_lock lock p) → sp ≡ true)
        → Leaves (leaf C (evaluate_hash C function lock hash old)) st
        → Shown sp st
    unfolding evaluate_hash
    evaluate_hash-Shown function lock hash [] sp st grants h = absurd h
    evaluate_hash-Shown function lock hash (Element.satisfied ∷ rest) sp st grants h = absurd h
    evaluate_hash-Shown function lock hash (Element.dissatisfied ∷ rest) sp st grants h = absurd h
    evaluate_hash-Shown function lock hash (Element.push p ∷ rest) sp st grants h =
        if-Leaves (not (length p == 32)) _ _ st (λ _ failed. absurd failed)
          (λ _ sized.
            if-Leaves (bytes_eq (function p) hash) _ _ st
              (λ _ met. subst (Shown sp) met.1 (grants p met.0))
              (λ _ unmet. subst (Shown sp) unmet tt) sized)
          h
