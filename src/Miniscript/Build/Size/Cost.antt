-- ===== src/Miniscript/Build/Size/Cost.antt =====
-- `pk_cost` against `script_size`: where the two computations of a script's length differ.
use rust_miniscript.Prelude.{
  ℕ, ◌+◌, ◌-◌, ◌≤◌, Bool, List, [], ◌∷◌, map, length, length-map, from_bool, ltb, if◌then◌else◌,
  ◌≡◌, ◌≢◌, ◌*◌, ap, ok, >>=-eq-ok, Option, arith,
}
use rust_miniscript.Primitives.Locktime.{Bitcoin}
use rust_miniscript.Primitives.Threshold.{Threshold}
use rust_miniscript.Primitives.Threshold.Valid.{IsValid}
use rust_miniscript.Ext.Data.{ExtData, SatData, script_num_size, zip_with}
use rust_miniscript.Ext.Leaves
use rust_miniscript.Ext.Leaves.{num_cost, multi_keys}
use rust_miniscript.Ext.Wrappers
use rust_miniscript.Ext.Combinators
use rust_miniscript.Ext.Combinators.{concat_after}
use rust_miniscript.Ext.Threshold
use rust_miniscript.Miniscript.Ast.{
  MiniscriptKey, Inscription, Terminal, Miniscript, miniscript, Subs, nil, cons, ext, exts, node,
}
use rust_miniscript.Miniscript.Check.{ext_check, inscribing}
use rust_miniscript.Miniscript.Context.{
  Context, sig_type, pk_len, check_pk, check_pks, check_node, check_global_consensus_validity,
  check_global_validity,
}
use rust_miniscript.Miniscript.Build.{Everywhere, EveryChild, EverySub, IsBuilt, Checked}
use rust_miniscript.Miniscript.Build.Annotated.{IsBuilt-Accepted, Accepted}
use rust_miniscript.Miniscript.Build.Size.{
  pk_lens, node_size, script_size, children_size, subs_size,
}

-- How many of the keys are uncompressed.
unfoldable pub count_true : List Bool → ℕ
count_true [] = 0
count_true (u ∷ us) = from_bool u + count_true us

-- A `multi_a` of more than 16 keys counts a size for their number, which its script does not push;
-- from a `k` of 128 on, the larger size of `k` makes up for it.
abbrev pub wide_multi_a : ℕ → ℕ → ℕ
wide_multi_a k n = if ltb 16 n then (if ltb k 128 then 1 else 0) else 0

multi_a-cost :
    (k n : ℕ)
    → 1 ≤ k
    → k ≤ n
    → n ≤ 999
    → script_num_size k + 1 + 33 * n + n + wide_multi_a k n ≡ (Leaves.multi_a k n).pk_cost
unfolding script_num_size Leaves.multi_a
multi_a-cost k n h le max = ground arith

multi_num_cost :
    (k n : ℕ)
    → k ≤ n
    → n ≤ 20
    → script_num_size k + script_num_size n ≡ num_cost (ltb 16 k) (ltb 16 n)
unfolding script_num_size
multi_num_cost k n le max = ground arith

module _ (K : MiniscriptKey) where
  -- Keys that the context accepts, of which `multi` counts an uncompressed one as a byte too short.
  keys-cost :
      (c : Context) (pks : List K.Pk)
      → c ≢ Context.tap
      → check_pks K c pks ≡ ok tt
      → pk_lens c (map K.is_uncompressed pks)
        ≡ multi_keys (map K.is_uncompressed pks) + count_true (map K.is_uncompressed pks)
  unfolding check_pks pk_lens multi_keys count_true
  keys-cost c [] h e = omega arith
  keys-cost c (pk ∷ pks) h e = ground (arith, keys-cost c pks)

  tap_keys-cost : (us : List Bool) → pk_lens Context.tap us ≡ 33 * length us
  unfolding pk_lens
  tap_keys-cost [] = omega arith
  tap_keys-cost (u ∷ us) = omega (arith, tap_keys-cost us)

  key-cost :
      (c : Context) (pk : K.Pk)
      → check_pk K c pk ≡ ok tt
      → pk_len c (K.is_uncompressed pk)
        ≡ (Leaves.pk_k (sig_type c) (K.is_uncompressed pk)).pk_cost
          + from_bool (K.is_uncompressed pk)
  unfolding check_pk Leaves.pk_k
  key-cost c pk e = ground arith

module _ {B : Bitcoin} {K : MiniscriptKey} where
  -- The uncompressed keys that a script pushes in `pk_k` and in `multi`.
  unfoldable mutual
    pub uncompressed : Miniscript B K → ℕ
    uncompressed (miniscript n t e) = uncompressed_node n

    pub uncompressed_node : Terminal B K → ℕ
    uncompressed_node (Terminal.inscribe_pre i s) = uncompressed s
    uncompressed_node (Terminal.inscribe_post i s) = uncompressed s
    uncompressed_node (Terminal.alt s) = uncompressed s
    uncompressed_node (Terminal.swap s) = uncompressed s
    uncompressed_node (Terminal.check s) = uncompressed s
    uncompressed_node (Terminal.dup_if s) = uncompressed s
    uncompressed_node (Terminal.verify s) = uncompressed s
    uncompressed_node (Terminal.non_zero s) = uncompressed s
    uncompressed_node (Terminal.zero_not_equal s) = uncompressed s
    uncompressed_node (Terminal.and_v l r) = uncompressed l + uncompressed r
    uncompressed_node (Terminal.and_b l r) = uncompressed l + uncompressed r
    uncompressed_node (Terminal.or_b l r) = uncompressed l + uncompressed r
    uncompressed_node (Terminal.or_d l r) = uncompressed l + uncompressed r
    uncompressed_node (Terminal.or_c l r) = uncompressed l + uncompressed r
    uncompressed_node (Terminal.or_i l r) = uncompressed l + uncompressed r
    uncompressed_node (Terminal.and_or x y z) = uncompressed x + uncompressed y + uncompressed z
    uncompressed_node (Terminal.thresh k ss) = uncompressed_subs ss
    uncompressed_node (Terminal.pk_k pk) = from_bool (K.is_uncompressed pk)
    uncompressed_node (Terminal.multi t) = count_true (map K.is_uncompressed t.inner)
    uncompressed_node _ = 0

    pub uncompressed_subs : Subs B K → ℕ
    uncompressed_subs nil = 0
    uncompressed_subs (cons s ss) = uncompressed s + uncompressed_subs ss

  -- The bytes that its `multi_a` fragments count too much.
  unfoldable mutual
    pub wide : Miniscript B K → ℕ
    wide (miniscript n t e) = wide_node n

    pub wide_node : Terminal B K → ℕ
    wide_node (Terminal.inscribe_pre i s) = wide s
    wide_node (Terminal.inscribe_post i s) = wide s
    wide_node (Terminal.alt s) = wide s
    wide_node (Terminal.swap s) = wide s
    wide_node (Terminal.check s) = wide s
    wide_node (Terminal.dup_if s) = wide s
    wide_node (Terminal.verify s) = wide s
    wide_node (Terminal.non_zero s) = wide s
    wide_node (Terminal.zero_not_equal s) = wide s
    wide_node (Terminal.and_v l r) = wide l + wide r
    wide_node (Terminal.and_b l r) = wide l + wide r
    wide_node (Terminal.or_b l r) = wide l + wide r
    wide_node (Terminal.or_d l r) = wide l + wide r
    wide_node (Terminal.or_c l r) = wide l + wide r
    wide_node (Terminal.or_i l r) = wide l + wide r
    wide_node (Terminal.and_or x y z) = wide x + wide y + wide z
    wide_node (Terminal.thresh k ss) = wide_subs ss
    wide_node (Terminal.multi_a t) = wide_multi_a t.k (length t.inner)
    wide_node _ = 0

    pub wide_subs : Subs B K → ℕ
    wide_subs nil = 0
    wide_subs (cons s ss) = wide s + wide_subs ss

abbrev pk_costs : List ExtData → ℕ
pk_costs [] = 0
pk_costs (e ∷ es) = e.pk_cost + pk_costs es

totals-pk_cost :
    (p : ℕ) (d : Option SatData) (es : List ExtData)
    → (Threshold.totals p d es).pk_cost ≡ p + pk_costs es
unfolding Threshold.totals
totals-pk_cost p d [] = omega arith
totals-pk_cost p d (e ∷ es) =
    omega (arith, totals-pk_cost (p + e.pk_cost) (zip_with concat_after d e.dissat_data) es)

threshold-pk_cost :
    (k n : ℕ) (es : List ExtData)
    → (Threshold.threshold k n es).pk_cost ≡ 1 + script_num_size k + pk_costs es + n - 1
unfolding Threshold.threshold
threshold-pk_cost k n es = ap (λ p. p + n - 1) (totals-pk_cost _ _ es)

module _ (B : Bitcoin) (K : MiniscriptKey) (c : Context) where
  -- What `check_node` accepts: `multi` outside of Tapscript, `multi_a` in it.
  pub multi_accepted :
      (t : Threshold K.Pk)
      → check_node {B = B} {K = K} c (Terminal.multi t) ≡ ok tt
      → (c ≢ Context.tap) × (check_pks K c t.inner ≡ ok tt)
  unfolding check_node
  multi_accepted t e = ground arith

  pub multi_a_accepted :
      (t : Threshold K.Pk)
      → check_node {B = B} {K = K} c (Terminal.multi_a t) ≡ ok tt
      → c ≡ Context.tap
  unfolding check_node
  multi_a_accepted t e = ground arith

  multi-cost :
      (t : Threshold K.Pk)
      → IsValid 20 t
      → check_node {B = B} {K = K} c (Terminal.multi t) ≡ ok tt
      → script_num_size t.k
          + 1
          + script_num_size (length t.inner)
          + pk_lens c (map K.is_uncompressed t.inner)
        ≡ (Leaves.multi t.k (length t.inner) (map K.is_uncompressed t.inner)).pk_cost
          + count_true (map K.is_uncompressed t.inner)
  unfolding Leaves.multi
  multi-cost t v e =
      let (h, pks) = multi_accepted t e in
      let a = keys-cost K c t.inner h pks in
      let b = multi_num_cost t.k (length t.inner) v.within (omega (arith, v.bounded)) in
      omega (arith, a, b)

  multi_a-size :
      (t : Threshold K.Pk)
      → IsValid 999 t
      → check_node {B = B} {K = K} c (Terminal.multi_a t) ≡ ok tt
      → script_num_size t.k
          + 1
          + pk_lens c (map K.is_uncompressed t.inner)
          + length t.inner
          + wide_multi_a t.k (length t.inner)
        ≡ (Leaves.multi_a t.k (length t.inner)).pk_cost
  multi_a-size t v e =
      let a = multi_a-cost t.k (length t.inner) v.positive v.within (omega (arith, v.bounded)) in
      let b = tap_keys-cost K (map K.is_uncompressed t.inner) in
      rw (multi_a_accepted t e) (omega (arith, a, b, length-map K.is_uncompressed t.inner))

module _ {B : Bitcoin} {K : MiniscriptKey} (size : Inscription → ℕ) (c : Context) where
  pub valid-check_node :
      (ms : Miniscript B K) → check_global_validity c ms ≡ ok tt → check_node c (node ms) ≡ ok tt
  unfolding check_global_validity
  valid-check_node (miniscript n t e) h =
      let (a, p, q) = >>=-eq-ok (check_global_consensus_validity c (miniscript n t e)) _ h in
      let (b, r, s) = >>=-eq-ok (check_node c n) _ p in r

  mutual
    unfolding script_size children_size subs_size node_size uncompressed wide ext_check inscribing
        check_node Leaves.pk_h Leaves.after Leaves.older Wrappers.cast_alt Wrappers.cast_swap
        Wrappers.cast_check Wrappers.cast_dupif Wrappers.cast_verify Wrappers.cast_nonzero
        Wrappers.cast_zeronotequal Combinators.and_b Combinators.and_v Combinators.or_b
        Combinators.or_d Combinators.or_c Combinators.or_i Combinators.and_or

    cost :
        (ms : Miniscript B K)
        → Everywhere (Accepted size c) ms
        → script_size size c ms + wide ms ≡ (ext ms).pk_cost + uncompressed ms
    cost (miniscript n t e) h =
        rw (Checked.ext (Accepted.checked h.0))
          (node_cost n h.1 (valid-check_node (miniscript n t e) (Accepted.valid h.0)))

    node_cost :
        (n : Terminal B K)
        → EveryChild (Accepted size c) n
        → check_node c n ≡ ok tt
        → node_size size c n + children_size size c n + wide_node n
          ≡ (ext_check size (sig_type c) n).pk_cost + uncompressed_node n
    node_cost (Terminal.inscribe_pre i s) h v = omega (arith, cost s h)
    node_cost (Terminal.inscribe_post i s) h v = omega (arith, cost s h)
    node_cost (Terminal.alt s) h v = omega (arith, cost s h)
    node_cost (Terminal.swap s) h v = omega (arith, cost s h)
    node_cost (Terminal.check s) h v = omega (arith, cost s h)
    node_cost (Terminal.dup_if s) h v = omega (arith, cost s h)
    node_cost (Terminal.verify s) h v = omega (arith, cost s h)
    node_cost (Terminal.non_zero s) h v = omega (arith, cost s h)
    node_cost (Terminal.zero_not_equal s) h v = omega (arith, cost s h)
    node_cost (Terminal.and_v l r) h v = omega (arith, cost l h.0, cost r h.1)
    node_cost (Terminal.and_b l r) h v = omega (arith, cost l h.0, cost r h.1)
    node_cost (Terminal.or_b l r) h v = omega (arith, cost l h.0, cost r h.1)
    node_cost (Terminal.or_d l r) h v = omega (arith, cost l h.0, cost r h.1)
    node_cost (Terminal.or_c l r) h v = omega (arith, cost l h.0, cost r h.1)
    node_cost (Terminal.or_i l r) h v = omega (arith, cost l h.0, cost r h.1)
    node_cost (Terminal.and_or x y z) h v = omega (arith, cost x h.0, cost y h.1, cost z h.2)
    node_cost (Terminal.thresh k ss) h v =
        omega (arith, children_cost ss h.2, threshold-pk_cost k (length (exts ss)) (exts ss))
    node_cost (Terminal.multi t) h v = omega (arith, multi-cost B K c t h v)
    node_cost (Terminal.multi_a t) h v = omega (arith, multi_a-size B K c t h v)
    node_cost (Terminal.pk_k pk) h v = omega (arith, key-cost K c pk v)
    node_cost _ h v = omega arith

    children_cost :
        (ss : Subs B K)
        → EverySub (Accepted size c) ss
        → subs_size size c ss + wide_subs ss ≡ pk_costs (exts ss) + uncompressed_subs ss
    children_cost nil h = omega arith
    children_cost (cons s ss) h = omega (arith, cost s h.0, children_cost ss h.1)

  -- The two lengths of a tree that `from_ast` builds differ by two things alone: `pk_cost` counts a
  -- byte too little for each uncompressed key of a `pk_k` or a `multi`, and a byte too much for
  -- each `multi_a` of more than 16 keys with a `k` below 128.
  pub script_size-pk_cost :
      (ms : Miniscript B K)
      → IsBuilt size c ms
      → script_size size c ms + wide ms ≡ (ext ms).pk_cost + uncompressed ms
  script_size-pk_cost ms h = cost ms (IsBuilt-Accepted size c ms h)
