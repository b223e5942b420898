-- ===== src/Miniscript/Encode.antt =====
-- `Terminal::encode` of src/miniscript/astelem.rs and the two functions of src/util.rs that push keys,
-- over the script builder of the bitcoin crate as an interface.
pub mod Size
pub mod Parts
pub mod Numbers
pub mod Limits
use rust_miniscript.Prelude.{
  ℕ, zero, suc, ◌+◌, ◌/◌, leb, Bool, true, false, not, List, [], ◌∷◌, length, ltb, ◌<◌, ◌≡◌,
  from_bool, if◌then◌else◌,
}
use rust_miniscript.Primitives.Locktime.{Bitcoin}
use rust_miniscript.Ext.Leaves.{SigType}
use rust_miniscript.Miniscript.Ast.{
  MiniscriptKey, Bytes, Inscription, Terminal, Miniscript, miniscript, Subs, nil, cons,
}
use rust_miniscript.Miniscript.Context.{Context, sig_type}

-- The opcodes that `encode` pushes.
pub data Opcode : Type 0 where
  op_dup op_hash160 op_hash256 op_sha256 op_ripemd160 op_equal op_equalverify op_size : Opcode
  op_cltv op_csv op_nop4 op_drop op_true op_false op_toaltstack op_fromaltstack op_swap : Opcode
  op_checksig op_checksigadd op_checkmultisig op_numequal op_if op_notif op_else op_endif : Opcode
  op_ifdup op_0notequal op_booland op_boolor op_add : Opcode

-- The opcodes that have a form with `VERIFY`.
abbrev pub has_verify_form : Opcode → Bool
has_verify_form Opcode.op_equal = true
has_verify_form Opcode.op_numequal = true
has_verify_form Opcode.op_checksig = true
has_verify_form Opcode.op_checkmultisig = true
has_verify_form _ = false

-- `script::Builder` of the bitcoin crate, its keys, and the encoding of an inscription envelope.
pub record ScriptBuilder : Type 1 where
  pub Builder : Type 0
  pub PublicKey : Type 0
  pub push_opcode : Builder → Opcode → Builder
  pub push_int : Builder → ℕ → Builder
  pub push_slice : Builder → Bytes → Builder
  pub push_key : Builder → PublicKey → Builder
  pub push_verify : Builder → Builder
  pub append_reveal_script_to_builder : Inscription → Builder → Builder

-- `ToPublicKey` of src/lib.rs: what a key and its hashes are in a script. The two hashes of a key are
-- those of its two serializations.
pub record ToPublicKey (S : ScriptBuilder) (K : MiniscriptKey) : Type 0 where
  pub to_public_key : K.Pk → S.PublicKey
  pub to_x_only_pubkey : K.Pk → Bytes
  pub pubkey_hash : SigType → K.Pk → Bytes
  pub to_sha256 : K.Sha256 → Bytes
  pub to_hash256 : K.Hash256 → Bytes
  pub to_ripemd160 : K.Ripemd160 → Bytes
  pub to_hash160 : K.Hash160 → Bytes

module _ (B : Bitcoin) {K : MiniscriptKey} (S : ScriptBuilder) (P : ToPublicKey S K)
    (c : Context) where
  abbrev pub push_opcodes : S.Builder → List Opcode → S.Builder
  push_opcodes b [] = b
  push_opcodes b (o ∷ os) = push_opcodes (S.push_opcode b o) os

  abbrev pub push_key_as : SigType → S.Builder → K.Pk → S.Builder
  push_key_as SigType.ecdsa b pk = S.push_key b (P.to_public_key pk)
  push_key_as SigType.schnorr b pk = S.push_slice b (P.to_x_only_pubkey pk)

  unfoldable pub push_ms_key : S.Builder → K.Pk → S.Builder
  push_ms_key b pk = push_key_as (sig_type c) b pk

  unfoldable pub push_ms_key_hash : S.Builder → K.Pk → S.Builder
  push_ms_key_hash b pk = S.push_slice b (P.pubkey_hash (sig_type c) pk)

  -- `OP_SIZE 32 OP_EQUALVERIFY hash_op <hash> OP_EQUAL`, which the four hash arms share.
  unfoldable pub push_hash_test : S.Builder → Opcode → Bytes → S.Builder
  push_hash_test b hash_op hash =
      let sized =
        S.push_opcode (S.push_int (S.push_opcode b Opcode.op_size) 32) Opcode.op_equalverify in
      S.push_opcode (S.push_slice (S.push_opcode sized hash_op) hash) Opcode.op_equal

  unfoldable pub push_inscriptions : S.Builder → List Inscription → S.Builder
  push_inscriptions b [] = b
  push_inscriptions b (i ∷ is) = push_inscriptions (S.append_reveal_script_to_builder i b) is

  unfoldable pub push_multi_keys : S.Builder → List K.Pk → S.Builder
  push_multi_keys b [] = b
  push_multi_keys b (pk ∷ pks) = push_multi_keys (S.push_key b (P.to_public_key pk)) pks

  unfoldable pub push_checksigadd_keys : S.Builder → List K.Pk → S.Builder
  unfolding push_ms_key
  push_checksigadd_keys b [] = b
  push_checksigadd_keys b (pk ∷ pks) =
      push_checksigadd_keys (S.push_opcode (push_ms_key b pk) Opcode.op_checksigadd) pks

  -- The keys of a `multi_a`, of which there is at least one.
  abbrev pub push_multi_a_keys : S.Builder → List K.Pk → S.Builder
  push_multi_a_keys b [] = b
  push_multi_a_keys b (pk ∷ pks) =
      push_checksigadd_keys (S.push_opcode (push_ms_key b pk) Opcode.op_checksig) pks

  unfoldable mutual
    unfolding push_ms_key push_ms_key_hash push_hash_test push_inscriptions push_multi_keys
        push_checksigadd_keys

    -- `push_astelem`.
    pub encode : S.Builder → Miniscript B K → S.Builder
    encode b (miniscript n t e) = encode_node b n

    pub encode_node : S.Builder → Terminal B K → S.Builder
    encode_node b (Terminal.pk_k pk) = push_ms_key b pk
    encode_node b (Terminal.pk_h pk) =
        S.push_opcode
          (push_ms_key_hash (push_opcodes b (Opcode.op_dup ∷ Opcode.op_hash160 ∷ [])) pk)
          Opcode.op_equalverify
    encode_node b (Terminal.raw_pk_h hash) =
        S.push_opcode (S.push_slice (push_opcodes b (Opcode.op_dup ∷ Opcode.op_hash160 ∷ [])) hash)
          Opcode.op_equalverify
    encode_node b (Terminal.after t) =
        S.push_opcode (S.push_int b (B.lock_to_consensus_u32 t.inner)) Opcode.op_cltv
    encode_node b (Terminal.older t) =
        S.push_opcode (S.push_int b (B.sequence_to_consensus_u32 t.inner)) Opcode.op_csv
    encode_node b (Terminal.sha256 h) = push_hash_test b Opcode.op_sha256 (P.to_sha256 h)
    encode_node b (Terminal.hash256 h) = push_hash_test b Opcode.op_hash256 (P.to_hash256 h)
    encode_node b (Terminal.ripemd160 h) = push_hash_test b Opcode.op_ripemd160 (P.to_ripemd160 h)
    encode_node b (Terminal.hash160 h) = push_hash_test b Opcode.op_hash160 (P.to_hash160 h)
    encode_node b (Terminal.tx_template h) =
        push_opcodes (S.push_slice b h) (Opcode.op_nop4 ∷ Opcode.op_drop ∷ [])
    encode_node b (Terminal.inscribe_pre i sub) = encode (push_inscriptions b i) sub
    encode_node b (Terminal.inscribe_post i sub) = push_inscriptions (encode b sub) i
    encode_node b Terminal.true = S.push_opcode b Opcode.op_true
    encode_node b Terminal.false = S.push_opcode b Opcode.op_false
    encode_node b (Terminal.alt sub) =
        S.push_opcode (encode (S.push_opcode b Opcode.op_toaltstack) sub) Opcode.op_fromaltstack
    encode_node b (Terminal.swap sub) = encode (S.push_opcode b Opcode.op_swap) sub
    encode_node b (Terminal.check sub) = S.push_opcode (encode b sub) Opcode.op_checksig
    encode_node b (Terminal.dup_if sub) =
        S.push_opcode (encode (push_opcodes b (Opcode.op_dup ∷ Opcode.op_if ∷ [])) sub)
          Opcode.op_endif
    encode_node b (Terminal.verify sub) = S.push_verify (encode b sub)
    encode_node b (Terminal.non_zero sub) =
        S.push_opcode
          (encode (push_opcodes b (Opcode.op_size ∷ Opcode.op_0notequal ∷ Opcode.op_if ∷ [])) sub)
          Opcode.op_endif
    encode_node b (Terminal.zero_not_equal sub) = S.push_opcode (encode b sub) Opcode.op_0notequal
    encode_node b (Terminal.and_v left right) = encode (encode b left) right
    encode_node b (Terminal.and_b left right) =
        S.push_opcode (encode (encode b left) right) Opcode.op_booland
    encode_node b (Terminal.and_or x y z) =
        S.push_opcode
          (encode
            (S.push_opcode (encode (S.push_opcode (encode b x) Opcode.op_notif) z) Opcode.op_else)
            y)
          Opcode.op_endif
    encode_node b (Terminal.or_b left right) =
        S.push_opcode (encode (encode b left) right) Opcode.op_boolor
    encode_node b (Terminal.or_d left right) =
        S.push_opcode
          (encode (push_opcodes (encode b left) (Opcode.op_ifdup ∷ Opcode.op_notif ∷ [])) right)
          Opcode.op_endif
    encode_node b (Terminal.or_c left right) =
        S.push_opcode (encode (S.push_opcode (encode b left) Opcode.op_notif) right) Opcode.op_endif
    encode_node b (Terminal.or_i left right) =
        S.push_opcode
          (encode (S.push_opcode (encode (S.push_opcode b Opcode.op_if) left) Opcode.op_else) right)
          Opcode.op_endif
    encode_node b (Terminal.thresh k subs) =
        S.push_opcode (S.push_int (encode_subs b subs) k) Opcode.op_equal
    encode_node b (Terminal.multi t) =
        S.push_opcode (S.push_int (push_multi_keys (S.push_int b t.k) t.inner) (length t.inner))
          Opcode.op_checkmultisig
    encode_node b (Terminal.multi_a t) =
        S.push_opcode (S.push_int (push_multi_a_keys b t.inner) t.k) Opcode.op_numequal

    -- The children of a `thresh`, of which there is at least one.
    pub encode_subs : S.Builder → Subs B K → S.Builder
    encode_subs b nil = b
    encode_subs b (cons s ss) = encode_adds (encode b s) ss

    pub encode_adds : S.Builder → Subs B K → S.Builder
    encode_adds b nil = b
    encode_adds b (cons s ss) = encode_adds (S.push_opcode (encode b s) Opcode.op_add) ss

-- The bytes of a number in Script: little endian in base 256, where the top bit of the last byte is
-- the sign. A number of 63 bits has at most eight.
unfoldable pub number_bytes : ℕ → ℕ → ℕ
number_bytes zero n = 1
number_bytes (suc fuel) n =
    let rest = number_bytes fuel (n / 256) in if ltb n 0x80 then 1 else 1 + rest

-- The bytes of the push of a number: an opcode alone up to 16, and before its bytes from there on.
unfoldable pub pushed_len : ℕ → ℕ
unfolding number_bytes
pushed_len n = if leb n 16 then 1 else 1 + number_bytes 8 n

-- What the documentation of the builder says of the length of the script so far, and of whether
-- `push_verify` finds an opcode at its end that has a form with `VERIFY`. The keys of the context
-- and the hashes have the lengths of their types.
pub record BuilderLaws (S : ScriptBuilder) {K : MiniscriptKey} (P : ToPublicKey S K)
    (size : Inscription → ℕ) : Type 0 where
  pub len : S.Builder → ℕ
  pub ends : S.Builder → Bool
  pub len-opcode : (b : S.Builder) (o : Opcode) → len (S.push_opcode b o) ≡ len b + 1
  pub ends-opcode : (b : S.Builder) (o : Opcode) → ends (S.push_opcode b o) ≡ has_verify_form o
  pub len-int :
      (b : S.Builder) (n : ℕ) → n < 0x8000000000000000 → len (S.push_int b n) ≡ len b + pushed_len n
  pub len-slice :
      (b : S.Builder) (s : Bytes) → length s < 76 → len (S.push_slice b s) ≡ len b + 1 + length s
  pub ends-slice : (b : S.Builder) (s : Bytes) → ends (S.push_slice b s) ≡ false
  pub len-key :
      (b : S.Builder) (pk : K.Pk)
      → len (S.push_key b (P.to_public_key pk)) ≡ len b + (if K.is_uncompressed pk then 66 else 34)
  pub ends-key : (b : S.Builder) (pk : K.Pk) → ends (S.push_key b (P.to_public_key pk)) ≡ false
  pub len-verify : (b : S.Builder) → len (S.push_verify b) ≡ len b + from_bool (not (ends b))
  pub ends-verify : (b : S.Builder) → ends (S.push_verify b) ≡ false
  pub len-envelope :
      (b : S.Builder) (i : Inscription)
      → len (S.append_reveal_script_to_builder i b) ≡ len b + size i
  pub ends-envelope :
      (b : S.Builder) (i : Inscription) → ends (S.append_reveal_script_to_builder i b) ≡ false
  pub length-x_only : (pk : K.Pk) → length (P.to_x_only_pubkey pk) ≡ 32
  pub length-pubkey_hash : (s : SigType) (pk : K.Pk) → length (P.pubkey_hash s pk) ≡ 20
  pub length-sha256 : (h : K.Sha256) → length (P.to_sha256 h) ≡ 32
  pub length-hash256 : (h : K.Hash256) → length (P.to_hash256 h) ≡ 32
  pub length-ripemd160 : (h : K.Ripemd160) → length (P.to_ripemd160 h) ≡ 20
  pub length-hash160 : (h : K.Hash160) → length (P.to_hash160 h) ≡ 20
