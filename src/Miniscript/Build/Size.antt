-- ===== src/Miniscript/Build/Size.antt =====
-- `Miniscript::script_size` of src/miniscript/mod.rs.
pub mod Cost
pub mod Limits
use rust_miniscript.Prelude.{ℕ, ◌+◌, ◌-◌, Bool, not, List, [], ◌∷◌, map, length, from_bool}
use rust_miniscript.Primitives.Locktime.{Bitcoin}
use rust_miniscript.Ext.Data.{script_num_size}
use rust_miniscript.Miniscript.Ast.{
  MiniscriptKey, Inscription, Terminal, Miniscript, miniscript, Subs, nil, cons, ext, exts,
}
use rust_miniscript.Miniscript.Check.{size_guesses}
use rust_miniscript.Miniscript.Context.{Context, pk_len}

-- `thresh.iter().map(|pk| Ctx::pk_len(pk)).sum()`, over which keys are uncompressed.
unfoldable pub pk_lens : Context → List Bool → ℕ
pk_lens c [] = 0
pk_lens c (u ∷ us) = pk_len c u + pk_lens c us

module _ {B : Bitcoin} {K : MiniscriptKey} (size : Inscription → ℕ) (c : Context) where
  -- The arms of the `match`: what a node adds to the length itself.
  unfoldable pub node_size : Terminal B K → ℕ
  unfolding size_guesses pk_lens
  node_size (Terminal.tx_template _) = 35
  node_size (Terminal.inscribe_pre i _) = size_guesses size i
  node_size (Terminal.inscribe_post i _) = size_guesses size i
  node_size (Terminal.and_v _ _) = 0
  node_size Terminal.true = 1
  node_size Terminal.false = 1
  node_size (Terminal.swap _) = 1
  node_size (Terminal.check _) = 1
  node_size (Terminal.zero_not_equal _) = 1
  node_size (Terminal.and_b _ _) = 1
  node_size (Terminal.or_b _ _) = 1
  node_size (Terminal.alt _) = 2
  node_size (Terminal.or_c _ _) = 2
  node_size (Terminal.dup_if _) = 3
  node_size (Terminal.and_or _ _ _) = 3
  node_size (Terminal.or_d _ _) = 3
  node_size (Terminal.or_i _ _) = 3
  node_size (Terminal.non_zero _) = 4
  node_size (Terminal.pk_h _) = 24
  node_size (Terminal.raw_pk_h _) = 24
  node_size (Terminal.ripemd160 _) = 21 + 6
  node_size (Terminal.hash160 _) = 21 + 6
  node_size (Terminal.sha256 _) = 33 + 6
  node_size (Terminal.hash256 _) = 33 + 6
  node_size (Terminal.pk_k pk) = pk_len c (K.is_uncompressed pk)
  node_size (Terminal.after n) = script_num_size (B.lock_to_consensus_u32 n.inner) + 1
  node_size (Terminal.older n) = script_num_size (B.sequence_to_consensus_u32 n.inner) + 1
  node_size (Terminal.verify sub) = from_bool (not (ext sub).has_free_verify)
  node_size (Terminal.thresh k subs) = script_num_size k + 1 + length (exts subs) - 1
  node_size (Terminal.multi t) =
      script_num_size t.k
      + 1
      + script_num_size (length t.inner)
      + pk_lens c (map K.is_uncompressed t.inner)
  node_size (Terminal.multi_a t) =
      script_num_size t.k + 1 + pk_lens c (map K.is_uncompressed t.inner) + length t.inner

  -- The sum over the nodes, in any order.
  unfoldable mutual
    pub script_size : Miniscript B K → ℕ
    script_size (miniscript n t e) = node_size n + children_size n

    pub children_size : Terminal B K → ℕ
    children_size (Terminal.inscribe_pre i s) = script_size s
    children_size (Terminal.inscribe_post i s) = script_size s
    children_size (Terminal.alt s) = script_size s
    children_size (Terminal.swap s) = script_size s
    children_size (Terminal.check s) = script_size s
    children_size (Terminal.dup_if s) = script_size s
    children_size (Terminal.verify s) = script_size s
    children_size (Terminal.non_zero s) = script_size s
    children_size (Terminal.zero_not_equal s) = script_size s
    children_size (Terminal.and_v l r) = script_size l + script_size r
    children_size (Terminal.and_b l r) = script_size l + script_size r
    children_size (Terminal.and_or x y z) = script_size x + script_size y + script_size z
    children_size (Terminal.or_b l r) = script_size l + script_size r
    children_size (Terminal.or_d l r) = script_size l + script_size r
    children_size (Terminal.or_c l r) = script_size l + script_size r
    children_size (Terminal.or_i l r) = script_size l + script_size r
    children_size (Terminal.thresh k ss) = subs_size ss
    children_size _ = 0

    pub subs_size : Subs B K → ℕ
    subs_size nil = 0
    subs_size (cons s ss) = script_size s + subs_size ss
