-- ===== src/Miniscript/Encode/Size.antt =====
-- The length of what `encode` of src/miniscript/astelem.rs pushes, against `script_size` of
-- src/miniscript/mod.rs.
use rust_miniscript.Prelude.{ℕ, ◌+◌, ◌^◌, ◌≤◌, ◌<◌, length, ◌≡◌, ok, arith}
use rust_miniscript.Primitives.Locktime.{Bitcoin}
use rust_miniscript.Types.Fragment.{Ty}
use rust_miniscript.Ext.Data.{ExtData, script_num_size}
use rust_miniscript.Ext.Leaves
use rust_miniscript.Ext.Leaves.{SigType}
use rust_miniscript.Ext.Wrappers
use rust_miniscript.Ext.Combinators
use rust_miniscript.Ext.Threshold
use rust_miniscript.Miniscript.Ast.{
  MiniscriptKey, Inscription, Terminal, Miniscript, miniscript, Subs, nil, cons, ty, ext, exts, tys,
}
use rust_miniscript.Miniscript.Check.{type_check, ext_check, inscribing}
use rust_miniscript.Miniscript.Context.{Context, sig_type, check_node}
use rust_miniscript.Miniscript.Build.{
  max_pubkeys_per_multisig, max_pubkeys_in_checksigadd, Everywhere, EveryChild, EverySub, IsBuilt,
  Checked,
}
use rust_miniscript.Miniscript.Build.Annotated.{
  IsBuilt-Accepted, Accepted, Everywhere-map, Everywhere-Both,
}
use rust_miniscript.Miniscript.Build.Size.{node_size, script_size, children_size, subs_size}
use rust_miniscript.Miniscript.Build.Size.Cost.{valid-check_node, multi_accepted}
use rust_miniscript.Miniscript.Encode.{
  Opcode, ScriptBuilder, ToPublicKey, BuilderLaws, push_ms_key_hash, push_hash_test,
  push_inscriptions, encode, encode_node, encode_subs, encode_adds,
}
use rust_miniscript.Miniscript.Encode.Parts.{
  keys_bounded, inscribed, multi_a_keys_accepted, push_hash_test-len, push_int-len, push_ms_key-len,
  push_ms_key-ends, push_multi_keys-len, push_multi_a_keys-len, push_inscriptions-len,
  push_inscriptions-ends,
}

-- The hashes that the tree holds as bytes have the lengths of their types.
abbrev pub HasHashLengths : {B : Bitcoin} {K : MiniscriptKey} → Terminal B K → Ty → ExtData → Type 0
HasHashLengths (Terminal.raw_pk_h h) t e = length h ≡ 20
HasHashLengths (Terminal.tx_template h) t e = length h ≡ 32
HasHashLengths _ t e = Unit

-- The lock times of the tree hold 32 bits, as their types do, and the number that a `thresh` needs has
-- at most five bytes in Script.
abbrev pub HasSmallNumbers :
    {B : Bitcoin} {K : MiniscriptKey} → Terminal B K → Ty → ExtData → Type 0
HasSmallNumbers {B} (Terminal.after n) t e = B.lock_to_consensus_u32 n.inner < 2 ^ 32
HasSmallNumbers {B} (Terminal.older n) t e = B.sequence_to_consensus_u32 n.inner < 2 ^ 32
HasSmallNumbers (Terminal.thresh k subs) t e = k < 0x8000000000
HasSmallNumbers _ t e = Unit

module _ (B : Bitcoin) {K : MiniscriptKey} (S : ScriptBuilder) (P : ToPublicKey S K)
    (size : Inscription → ℕ) (L : BuilderLaws S P size) (c : Context) where
  abbrev Good : Terminal B K → Ty → ExtData → Type 0
  Good n t e = Accepted size c n t e × HasHashLengths n t e

  mutual
    unfolding encode type_check ext_check push_hash_test inscribing Leaves.pk_k Leaves.pk_h
        Leaves.multi Leaves.multi_a Leaves.after Leaves.older Wrappers.cast_alt Wrappers.cast_swap
        Wrappers.cast_check Wrappers.cast_dupif Wrappers.cast_verify Wrappers.cast_nonzero
        Wrappers.cast_zeronotequal Combinators.and_b Combinators.and_v Combinators.or_b
        Combinators.or_d Combinators.or_c Combinators.or_i Combinators.and_or Threshold.threshold

    -- Whether the end of the script has a form with `VERIFY` is what the annotation says.
    encode-ends :
        (ms : Miniscript B K)
        → Everywhere Good ms
        → (b : S.Builder) → L.ends (encode B S P c b ms) ≡ (ext ms).has_free_verify
    encode-ends (miniscript n t e) h b =
        rw (Checked.ext (Accepted.checked h.0.0))
          (node-ends n t h.1 (Checked.ty (Accepted.checked h.0.0)) b)

    node-ends :
        (n : Terminal B K) (t : Ty)
        → EveryChild Good n
        → type_check n ≡ ok t
        → (b : S.Builder)
        → L.ends (encode_node B S P c b n) ≡ (ext_check size (sig_type c) n).has_free_verify
    node-ends (Terminal.swap s) t h e b = encode-ends s h (S.push_opcode b Opcode.op_swap)
    node-ends (Terminal.and_v l r) t h e b = encode-ends r h.1 (encode B S P c b l)
    node-ends (Terminal.verify s) t h e b = L.ends-verify (encode B S P c b s)
    node-ends (Terminal.pk_k pk) t h e b = push_ms_key-ends B S P size L c b pk
    node-ends (Terminal.inscribe_pre i s) t h e b = encode-ends s h (push_inscriptions B S P c b i)
    node-ends (Terminal.inscribe_post i s) t h e b =
        let (x, xs, q) = inscribed B i (ty s) e in
        rw q (push_inscriptions-ends B S P size L c (encode B S P c b s) x xs)
    node-ends _ t h e b = L.ends-opcode _ _

  abbrev Sized : Terminal B K → Ty → ExtData → Type 0
  Sized n t e = Good n t e × HasSmallNumbers n t e

  Sized-Good : (ms : Miniscript B K) → Everywhere Sized ms → Everywhere Good ms
  Sized-Good = Everywhere-map Sized Good (λ n t e h. h.0)

  mutual
    unfolding encode script_size node_size script_num_size push_ms_key_hash check_node

    -- Each subtree pushes as many bytes as `script_size` says.
    encode-len :
        (ms : Miniscript B K)
        → Everywhere Sized ms
        → (b : S.Builder) → L.len (encode B S P c b ms) ≡ L.len b + script_size size c ms
    encode-len (miniscript n t e) h b =
        node-len n t e h.0.0.1 h.0.1 h.1
          (valid-check_node size c (miniscript n t e) (Accepted.valid h.0.0.0)) b

    node-len :
        (n : Terminal B K) (t : Ty) (e : ExtData)
        → HasHashLengths n t e
        → HasSmallNumbers n t e
        → EveryChild Sized n
        → check_node c n ≡ ok tt
        → (b : S.Builder)
        → L.len (encode_node B S P c b n) ≡ L.len b + (node_size size c n + children_size size c n)
    node-len (Terminal.swap s) t e g m h v b = simp (L.len-opcode, encode-len s h) (omega arith)
    node-len (Terminal.alt s) t e g m h v b = simp (L.len-opcode, encode-len s h) (omega arith)
    node-len (Terminal.check s) t e g m h v b = simp (L.len-opcode, encode-len s h) (omega arith)
    node-len (Terminal.dup_if s) t e g m h v b = simp (L.len-opcode, encode-len s h) (omega arith)
    node-len (Terminal.non_zero s) t e g m h v b = simp (L.len-opcode, encode-len s h) (omega arith)
    node-len (Terminal.zero_not_equal s) t e g m h v b =
        simp (L.len-opcode, encode-len s h) (omega arith)
    node-len (Terminal.and_v l r) t e g m h v b =
        simp (encode-len l h.0, encode-len r h.1) (omega arith)
    node-len (Terminal.and_b l r) t e g m h v b =
        simp (L.len-opcode, encode-len l h.0, encode-len r h.1) (omega arith)
    node-len (Terminal.or_b l r) t e g m h v b =
        simp (L.len-opcode, encode-len l h.0, encode-len r h.1) (omega arith)
    node-len (Terminal.or_d l r) t e g m h v b =
        simp (L.len-opcode, encode-len l h.0, encode-len r h.1) (omega arith)
    node-len (Terminal.or_c l r) t e g m h v b =
        simp (L.len-opcode, encode-len l h.0, encode-len r h.1) (omega arith)
    node-len (Terminal.or_i l r) t e g m h v b =
        simp (L.len-opcode, encode-len l h.0, encode-len r h.1) (omega arith)
    node-len (Terminal.and_or x y z) t e g m h v b =
        simp (L.len-opcode, encode-len x h.0, encode-len y h.1, encode-len z h.2) (omega arith)
    node-len (Terminal.verify s) t e g m h v b =
        simp (L.len-verify, encode-ends s (Sized-Good s h), encode-len s h) (omega arith)
    node-len (Terminal.inscribe_pre i s) t e g m h v b =
        simp (encode-len s h, push_inscriptions-len B S P size L c) (omega arith)
    node-len (Terminal.inscribe_post i s) t e g m h v b =
        simp (push_inscriptions-len B S P size L c, encode-len s h) (omega arith)
    node-len (Terminal.pk_k pk) t e g m h v b = omega (arith, push_ms_key-len B S P size L c b pk v)
    node-len (Terminal.pk_h pk) t e g m h v b =
        let n = L.length-pubkey_hash (sig_type c) pk in
        simp (L.len-opcode, L.len-slice _ (P.pubkey_hash (sig_type c) pk) (omega (arith, n)))
          (omega (arith, n))
    node-len (Terminal.raw_pk_h hash) t e g m h v b =
        simp (L.len-opcode, L.len-slice _ hash (omega (arith, g))) (omega (arith, g))
    node-len (Terminal.tx_template hash) t e g m h v b =
        simp (L.len-opcode, L.len-slice _ hash (omega (arith, g))) (omega (arith, g))
    node-len (Terminal.after n) t e g m h v b =
        simp
          (
            L.len-opcode,
            push_int-len B S P size L _ (B.lock_to_consensus_u32 n.inner) (omega (arith, m)),
          )
          (omega arith)
    node-len (Terminal.older n) t e g m h v b =
        simp
          (
            L.len-opcode,
            push_int-len B S P size L _ (B.sequence_to_consensus_u32 n.inner) (omega (arith, m)),
          )
          (omega arith)
    node-len (Terminal.sha256 x) t e g m h v b =
        let n = L.length-sha256 x in
        omega (
          arith,
          n,
          push_hash_test-len B S P size L c b Opcode.op_sha256 (P.to_sha256 x) (omega (arith, n)),
        )
    node-len (Terminal.hash256 x) t e g m h v b =
        let n = L.length-hash256 x in
        omega (
          arith,
          n,
          push_hash_test-len B S P size L c b Opcode.op_hash256 (P.to_hash256 x) (omega (arith, n)),
        )
    node-len (Terminal.ripemd160 x) t e g m h v b =
        let n = L.length-ripemd160 x in
        omega (
          arith,
          n,
          push_hash_test-len B S P size L c b Opcode.op_ripemd160 (P.to_ripemd160 x)
              (omega (arith, n)),
        )
    node-len (Terminal.hash160 x) t e g m h v b =
        let n = L.length-hash160 x in
        omega (
          arith,
          n,
          push_hash_test-len B S P size L c b Opcode.op_hash160 (P.to_hash160 x) (omega (arith, n)),
        )
    node-len (Terminal.thresh k subs) t e g m h v b =
        let n = len-encode_adds subs h.2 (omega (arith, h.0, h.1)) b in
        simp (L.len-opcode, push_int-len B S P size L _ k m) (omega (arith, n))
    node-len (Terminal.multi n) t e g m h v b =
        let (other, keys) = multi_accepted B K c n v in
        let (few, short) = keys_bounded max_pubkeys_per_multisig n (omega arith) h in
        simp
          (
            L.len-opcode,
            push_int-len B S P size L _ n.k (omega (arith, few)),
            push_int-len B S P size L _ (length n.inner) (omega (arith, short)),
            push_multi_keys-len B S P size L c _ n.inner other keys,
          )
          (omega arith)
    node-len (Terminal.multi_a n) t e g m h v b =
        let keys = multi_a_keys_accepted B K c n v in
        let l =
          push_multi_a_keys-len B S P size L c b n.inner (omega (arith, h.positive, h.within))
            keys in
        let (few, short) = keys_bounded max_pubkeys_in_checksigadd n (omega arith) h in
        simp (L.len-opcode, push_int-len B S P size L _ n.k (omega (arith, few))) (omega (arith, l))
    node-len Terminal.true t e g m h v b = omega (arith, L.len-opcode b Opcode.op_true)
    node-len Terminal.false t e g m h v b = omega (arith, L.len-opcode b Opcode.op_false)

    len-encode_adds :
        (ss : Subs B K)
        → EverySub Sized ss
        → 1 ≤ length (tys ss)
        → (b : S.Builder)
        → L.len (encode_subs B S P c b ss) + 1 ≡ L.len b + subs_size size c ss + length (exts ss)
    len-encode_adds nil h l b = absurd (omega (arith, l))
    len-encode_adds (cons s ss) h l b = simp (adds-len ss h.1, encode-len s h.0) (omega arith)

    adds-len :
        (ss : Subs B K)
        → EverySub Sized ss
        → (b : S.Builder)
        → L.len (encode_adds B S P c b ss) ≡ L.len b + subs_size size c ss + length (exts ss)
    adds-len nil h b = omega arith
    adds-len (cons s ss) h b = simp (adds-len ss h.1, L.len-opcode, encode-len s h.0) (omega arith)

  -- A tree that `from_ast` builds, whose hashes have the lengths of their types, whose lock times are
  -- below 2 ^ 32 and each `thresh` of which needs fewer than 2 ^ 39, is encoded to as many bytes as
  -- its `script_size`, after any script so far.
  pub encode-script_size :
      (ms : Miniscript B K)
      → IsBuilt size c ms
      → Everywhere HasHashLengths ms
      → Everywhere HasSmallNumbers ms
      → (b : S.Builder) → L.len (encode B S P c b ms) ≡ L.len b + script_size size c ms
  encode-script_size ms h g m =
      let good =
        Everywhere-Both (Accepted size c) HasHashLengths ms (IsBuilt-Accepted size c ms h) g in
      encode-len ms (Everywhere-Both Good HasSmallNumbers ms good m)

  -- For a tree that `from_ast` builds, whose hashes have the lengths of their types,
  -- `has_free_verify` says whether `push_verify` finds an opcode with a form with `VERIFY` at the end
  -- of its encoding.
  pub encode-has_free_verify :
      (ms : Miniscript B K)
      → IsBuilt size c ms
      → Everywhere HasHashLengths ms
      → (b : S.Builder) → L.ends (encode B S P c b ms) ≡ (ext ms).has_free_verify
  encode-has_free_verify ms h g =
      encode-ends ms
        (Everywhere-Both (Accepted size c) HasHashLengths ms (IsBuilt-Accepted size c ms h) g)
