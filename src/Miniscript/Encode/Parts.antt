-- ===== src/Miniscript/Encode/Parts.antt =====
-- The length of what the parts of `encode` of src/miniscript/astelem.rs push: keys, hash tests, numbers
-- and inscriptions.
use rust_miniscript.Prelude.{
  ℕ, ◌+◌, ◌≤◌, ◌<◌, inl, inr, false, List, [], ◌∷◌, map, length, ◌≡◌, ◌≢◌, refl, >>=-eq-ok, ok,
  arith,
}
use rust_miniscript.Primitives.Locktime.{Bitcoin}
use rust_miniscript.Primitives.Threshold.{Threshold}
use rust_miniscript.Primitives.Threshold.Valid.{IsValid}
use rust_miniscript.Types.Fragment.{Ty}
use rust_miniscript.Ext.Data.{script_num_size}
use rust_miniscript.Miniscript.Ast.{MiniscriptKey, Bytes, Inscription, Terminal}
use rust_miniscript.Miniscript.Check.{check_inscribe, size_guesses}
use rust_miniscript.Miniscript.Context.{Context, pk_len, check_pk, check_pks, check_node}
use rust_miniscript.Miniscript.Build.Size.{pk_lens}
use rust_miniscript.Miniscript.Encode.Numbers.{script_num_size-pushed_len}
use rust_miniscript.Miniscript.Encode.{
  Opcode, ScriptBuilder, ToPublicKey, BuilderLaws, push_ms_key, push_hash_test, push_inscriptions,
  push_multi_keys, push_checksigadd_keys, push_multi_a_keys,
}

-- The numbers of a threshold of keys in range are small.
pub keys_bounded :
    {T : Type 0} (max : ℕ) (t : Threshold T)
    → 0 < max
    → IsValid max t
    → (t.k ≤ max) × (length t.inner ≤ max)
keys_bounded max t positive v = elim v.bounded [
  | inl empty ↦ absurd (omega (arith, positive, empty))
  | inr few ↦ (omega (arith, few, v.within), few)
]

-- An inscribed tree has an inscription.
pub inscribed :
    (B : Bitcoin) (i : List Inscription) (t : Ty) {u : Ty}
    → check_inscribe B i t ≡ ok u
    → (x : Inscription) × (xs : List Inscription) × (i ≡ x ∷ xs)
unfolding check_inscribe
inscribed B [] t h = cc
inscribed B (x ∷ xs) t h = (x, xs, refl)

pub multi_a_keys_accepted :
    (B : Bitcoin) (K : MiniscriptKey) (c : Context) (t : Threshold K.Pk)
    → check_node {B = B} {K = K} c (Terminal.multi_a t) ≡ ok tt
    → check_pks K c t.inner ≡ ok tt
unfolding check_node
multi_a_keys_accepted B K Context.tap t e = e
multi_a_keys_accepted B K Context.legacy t e = cc
multi_a_keys_accepted B K Context.segwitv0 t e = cc
multi_a_keys_accepted B K Context.bare t e = cc

module _ (B : Bitcoin) {K : MiniscriptKey} (S : ScriptBuilder) (P : ToPublicKey S K)
    (size : Inscription → ℕ) (L : BuilderLaws S P size) where
  pub push_int-len :
      (b : S.Builder) (n : ℕ)
      → n < 0x8000000000
      → L.len (S.push_int b n) ≡ L.len b + script_num_size n
  push_int-len b n h = rw (script_num_size-pushed_len n h) (L.len-int b n (omega (arith, h)))

  pub push_hash_test-len :
      (c : Context) (b : S.Builder) (o : Opcode) (h : Bytes)
      → length h < 76
      → L.len (push_hash_test B S P c b o h) ≡ L.len b + 7 + length h
  unfolding push_hash_test script_num_size
  push_hash_test-len c b o h short =
      simp (L.len-opcode, L.len-slice _ h short, push_int-len _ 32 (omega arith)) (omega arith)

  pub push_ms_key-len :
      (c : Context) (b : S.Builder) (pk : K.Pk)
      → check_pk K c pk ≡ ok tt
      → L.len (push_ms_key B S P c b pk) ≡ L.len b + pk_len c (K.is_uncompressed pk)
  unfolding push_ms_key check_pk
  push_ms_key-len Context.legacy b pk h = L.len-key b pk
  push_ms_key-len Context.segwitv0 b pk h = ground (arith, L.len-key b pk, h)
  push_ms_key-len Context.tap b pk h =
      let n = L.length-x_only pk in
      omega (arith, n, L.len-slice b (P.to_x_only_pubkey pk) (omega (arith, n)))
  push_ms_key-len Context.bare b pk h = L.len-key b pk

  pub push_ms_key-ends :
      (c : Context) (b : S.Builder) (pk : K.Pk) → L.ends (push_ms_key B S P c b pk) ≡ false
  unfolding push_ms_key
  push_ms_key-ends Context.legacy b pk = L.ends-key b pk
  push_ms_key-ends Context.segwitv0 b pk = L.ends-key b pk
  push_ms_key-ends Context.tap b pk = L.ends-slice b (P.to_x_only_pubkey pk)
  push_ms_key-ends Context.bare b pk = L.ends-key b pk

  multi_key-len :
      (c : Context) (b : S.Builder) (pk : K.Pk)
      → c ≢ Context.tap
      → check_pk K c pk ≡ ok tt
      → L.len (S.push_key b (P.to_public_key pk)) ≡ L.len b + pk_len c (K.is_uncompressed pk)
  unfolding check_pk
  multi_key-len c b pk h e = ground (arith, L.len-key b pk, h, e)

  pub push_multi_keys-len :
      (c : Context) (b : S.Builder) (pks : List K.Pk)
      → c ≢ Context.tap
      → check_pks K c pks ≡ ok tt
      → L.len (push_multi_keys B S P c b pks) ≡ L.len b + pk_lens c (map K.is_uncompressed pks)
  unfolding push_multi_keys check_pks pk_lens
  push_multi_keys-len c b [] h e = omega arith
  push_multi_keys-len c b (pk ∷ pks) h e =
      let (u, p, q) = >>=-eq-ok (check_pk K c pk) _ e in
      omega (
        arith,
        multi_key-len c b pk h p,
        push_multi_keys-len c (S.push_key b (P.to_public_key pk)) pks h q,
      )

  push_checksigadd_keys-len :
      (c : Context) (b : S.Builder) (pks : List K.Pk)
      → check_pks K c pks ≡ ok tt
      → L.len (push_checksigadd_keys B S P c b pks)
        ≡ L.len b + pk_lens c (map K.is_uncompressed pks) + length pks
  unfolding push_checksigadd_keys check_pks pk_lens
  push_checksigadd_keys-len c b [] e = omega arith
  push_checksigadd_keys-len c b (pk ∷ pks) e =
      let (u, p, q) = >>=-eq-ok (check_pk K c pk) _ e in
      let keyed = push_ms_key B S P c b pk in
      omega (
        arith,
        push_ms_key-len c b pk p,
        L.len-opcode keyed Opcode.op_checksigadd,
        push_checksigadd_keys-len c (S.push_opcode keyed Opcode.op_checksigadd) pks q,
      )

  pub push_multi_a_keys-len :
      (c : Context) (b : S.Builder) (pks : List K.Pk)
      → 1 ≤ length pks
      → check_pks K c pks ≡ ok tt
      → L.len (push_multi_a_keys B S P c b pks)
        ≡ L.len b + pk_lens c (map K.is_uncompressed pks) + length pks
  unfolding check_pks pk_lens
  push_multi_a_keys-len c b [] l e = absurd (omega (arith, l))
  push_multi_a_keys-len c b (pk ∷ pks) l e =
      let (u, p, q) = >>=-eq-ok (check_pk K c pk) _ e in
      let keyed = push_ms_key B S P c b pk in
      omega (
        arith,
        push_ms_key-len c b pk p,
        L.len-opcode keyed Opcode.op_checksig,
        push_checksigadd_keys-len c (S.push_opcode keyed Opcode.op_checksig) pks q,
      )

  module _ (c : Context) where
    pub push_inscriptions-len :
        (b : S.Builder) (i : List Inscription)
        → L.len (push_inscriptions B S P c b i) ≡ L.len b + size_guesses size i
    unfolding push_inscriptions size_guesses
    push_inscriptions-len b [] = omega arith
    push_inscriptions-len b (i ∷ is) = omega (
      arith,
      L.len-envelope b i,
      push_inscriptions-len (S.append_reveal_script_to_builder i b) is,
    )

    pub push_inscriptions-ends :
        (b : S.Builder) (i : Inscription) (is : List Inscription)
        → L.ends (push_inscriptions B S P c b (i ∷ is)) ≡ false
    unfolding push_inscriptions
    push_inscriptions-ends b i [] = L.ends-envelope b i
    push_inscriptions-ends b i (j ∷ js) =
        push_inscriptions-ends (S.append_reveal_script_to_builder i b) j js
