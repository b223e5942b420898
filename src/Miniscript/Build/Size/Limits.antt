-- ===== src/Miniscript/Build/Size/Limits.antt =====
-- `script_size` and the limits that `check_global_validity` of src/miniscript/context.rs puts on
-- `pk_cost`.
use rust_miniscript.Prelude.{ℕ, ◌+◌, ◌≤◌, List, [], ◌∷◌, map, from_bool, ◌≡◌, ok, >>=-eq-ok, arith}
use rust_miniscript.Primitives.Locktime.{Bitcoin}
use rust_miniscript.Miniscript.Ast.{
  MiniscriptKey, Inscription, Terminal, Miniscript, miniscript, Subs, nil, cons, ext, node,
}
use rust_miniscript.Miniscript.Context.{
  Context, check_pk, check_pks, check_node, check_size, check_global_consensus_validity,
  check_global_policy_validity, check_global_validity, max_script_size,
  max_standard_p2wsh_script_size, max_script_element_size,
}
use rust_miniscript.Miniscript.Build.{Everywhere, EveryChild, EverySub, IsBuilt}
use rust_miniscript.Miniscript.Build.Annotated.{IsBuilt-Accepted, Accepted}
use rust_miniscript.Miniscript.Build.Size.{script_size}
use rust_miniscript.Miniscript.Build.Size.Cost.{
  uncompressed, uncompressed_node, uncompressed_subs, count_true, wide, valid-check_node,
  script_size-pk_cost, multi_accepted,
}

-- The longest script of a context.
abbrev pub size_limit : Bitcoin → Context → ℕ
size_limit B Context.legacy = max_script_element_size
size_limit B Context.segwitv0 = max_standard_p2wsh_script_size
size_limit B Context.tap = B.max_block_weight
size_limit B Context.bare = max_script_size

-- The contexts that accept compressed keys alone.
pub data CompressedKeys : Context → Type 0 where
  segwitv0 : CompressedKeys Context.segwitv0
  tap : CompressedKeys Context.tap

module _ (K : MiniscriptKey) where
  key-compressed :
      (c : Context)
      → CompressedKeys c
      → (pk : K.Pk) → check_pk K c pk ≡ ok tt
      → from_bool (K.is_uncompressed pk) ≡ 0
  unfolding check_pk
  key-compressed c segwitv0 pk h = ground arith
  key-compressed c tap pk h = ground arith

  keys-compressed :
      (c : Context)
      → CompressedKeys c
      → (pks : List K.Pk) → check_pks K c pks ≡ ok tt
      → count_true (map K.is_uncompressed pks) ≡ 0
  unfolding check_pks count_true
  keys-compressed c h [] e = omega arith
  keys-compressed c h (pk ∷ pks) e =
      let (u, p, q) = >>=-eq-ok (check_pk K c pk) _ e in
      omega (arith, key-compressed c h pk p, keys-compressed c h pks q)

module _ (B : Bitcoin) {K : MiniscriptKey} where
  within_limit :
      (c : Context) (ms : Miniscript B K)
      → check_size B c (ext ms) ≡ ok tt
      → check_global_policy_validity c ms ≡ ok tt
      → (ext ms).pk_cost ≤ size_limit B c
  unfolding check_global_policy_validity
  within_limit Context.legacy ms p q = ground arith
  within_limit Context.segwitv0 ms p q = ground arith
  within_limit Context.tap ms p q = ground arith
  within_limit Context.bare ms p q = ground arith

module _ {B : Bitcoin} {K : MiniscriptKey} (size : Inscription → ℕ) (c : Context) where
  accepted-size_limit :
      (ms : Miniscript B K) → check_global_validity c ms ≡ ok tt → (ext ms).pk_cost ≤ size_limit B c
  unfolding check_global_validity
  accepted-size_limit ms h =
      let (a, p, policy) = >>=-eq-ok (check_global_consensus_validity c ms) _ h in
      let (b, r, consensus) = >>=-eq-ok (check_node c (node ms)) _ p in
      within_limit B c ms consensus policy

  root-valid :
      (ms : Miniscript B K) → Everywhere (Accepted size c) ms → check_global_validity c ms ≡ ok tt
  root-valid (miniscript n t e) h = Accepted.valid h.0

  mutual
    unfolding uncompressed check_node

    tree-compressed :
        CompressedKeys c
        → (ms : Miniscript B K) → Everywhere (Accepted size c) ms
        → uncompressed ms ≡ 0
    tree-compressed d (miniscript n t e) h =
        node-compressed d n h.1 (valid-check_node size c (miniscript n t e) (Accepted.valid h.0))

    node-compressed :
        CompressedKeys c
        → (n : Terminal B K) → EveryChild (Accepted size c) n
        → check_node c n ≡ ok tt
        → uncompressed_node n ≡ 0
    node-compressed d (Terminal.inscribe_pre i s) h v = tree-compressed d s h
    node-compressed d (Terminal.inscribe_post i s) h v = tree-compressed d s h
    node-compressed d (Terminal.alt s) h v = tree-compressed d s h
    node-compressed d (Terminal.swap s) h v = tree-compressed d s h
    node-compressed d (Terminal.check s) h v = tree-compressed d s h
    node-compressed d (Terminal.dup_if s) h v = tree-compressed d s h
    node-compressed d (Terminal.verify s) h v = tree-compressed d s h
    node-compressed d (Terminal.non_zero s) h v = tree-compressed d s h
    node-compressed d (Terminal.zero_not_equal s) h v = tree-compressed d s h
    node-compressed d (Terminal.and_v l r) h v =
        omega (arith, tree-compressed d l h.0, tree-compressed d r h.1)
    node-compressed d (Terminal.and_b l r) h v =
        omega (arith, tree-compressed d l h.0, tree-compressed d r h.1)
    node-compressed d (Terminal.or_b l r) h v =
        omega (arith, tree-compressed d l h.0, tree-compressed d r h.1)
    node-compressed d (Terminal.or_d l r) h v =
        omega (arith, tree-compressed d l h.0, tree-compressed d r h.1)
    node-compressed d (Terminal.or_c l r) h v =
        omega (arith, tree-compressed d l h.0, tree-compressed d r h.1)
    node-compressed d (Terminal.or_i l r) h v =
        omega (arith, tree-compressed d l h.0, tree-compressed d r h.1)
    node-compressed d (Terminal.and_or x y z) h v =
        omega (arith, tree-compressed d x h.0, tree-compressed d y h.1, tree-compressed d z h.2)
    node-compressed d (Terminal.thresh k ss) h v = children-compressed d ss h.2
    node-compressed d (Terminal.pk_k pk) h v = key-compressed K c d pk v
    node-compressed d (Terminal.multi t) h v =
        keys-compressed K c d t.inner (multi_accepted B K c t v).1
    node-compressed d _ h v = omega arith

    children-compressed :
        CompressedKeys c
        → (ss : Subs B K) → EverySub (Accepted size c) ss
        → uncompressed_subs ss ≡ 0
    children-compressed d nil h = omega arith
    children-compressed d (cons s ss) h =
        omega (arith, tree-compressed d s h.0, children-compressed d ss h.1)

  -- The `script_size` of a tree that `from_ast` builds, and of its bytes that `wide` counts, is at
  -- most the limit of its context and a byte for each uncompressed key of a `pk_k` or a `multi`.
  pub script_size-size_limit :
      (ms : Miniscript B K)
      → IsBuilt size c ms
      → script_size size c ms + wide ms ≤ size_limit B c + uncompressed ms
  script_size-size_limit ms h = omega (
    arith,
    script_size-pk_cost size c ms h,
    accepted-size_limit ms (root-valid ms (IsBuilt-Accepted size c ms h)),
  )

  -- In the Segwitv0 and Tapscript contexts, the `script_size` of a tree that `from_ast` builds is
  -- within the limit of the context.
  pub compressed-size_limit :
      (ms : Miniscript B K)
      → CompressedKeys c
      → IsBuilt size c ms
      → script_size size c ms ≤ size_limit B c
  compressed-size_limit ms d h =
      omega
        (arith, script_size-size_limit ms h, tree-compressed d ms (IsBuilt-Accepted size c ms h))
