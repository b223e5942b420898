-- ===== src/Miniscript/Context.antt =====
-- src/miniscript/context.rs and limits.rs: the four script contexts that check scripts. `NoChecks`,
-- whose size functions panic, is left out, and so are the names that errors carry.
use rust_miniscript.Prelude.{
  ℕ, ◌+◌, Bool, true, false, Option, none, some, List, [], ◌∷◌, length, ltb, Result, ok, err, ◌>>◌,
  not, if◌then◌else◌,
}
use rust_miniscript.Primitives.Locktime.{Bitcoin}
use rust_miniscript.Ext.Data.{SatData, ExtData, sat_op_count}
use rust_miniscript.Ext.Leaves.{SigType}
use rust_miniscript.Miniscript.Ast.{MiniscriptKey, Terminal, Miniscript, node, ext}

pub data Context : Type 0 where
  legacy segwitv0 tap bare : Context

pub data ScriptContextError : Type 0 where
  malleable_or_i : ScriptContextError
  malleable_dup_if : ScriptContextError
  x_only_keys_not_allowed : ScriptContextError
  uncompressed_keys_not_allowed : ScriptContextError
  max_witness_items_exceeded : ℕ → ℕ → ScriptContextError
  max_op_count_exceeded : ℕ → ℕ → ScriptContextError
  max_witness_script_size_exceeded : ℕ → ℕ → ScriptContextError
  max_redeem_script_size_exceeded : ℕ → ℕ → ScriptContextError
  max_bare_script_size_exceeded : ℕ → ℕ → ScriptContextError
  max_script_sig_size_exceeded : ℕ → ℕ → ScriptContextError
  impossible_satisfaction : ScriptContextError
  taproot_multi_disabled : ScriptContextError
  stack_size_limit_exceeded : ℕ → ℕ → ScriptContextError
  multi_a_not_allowed : ScriptContextError

abbrev pub max_ops_per_script : ℕ
max_ops_per_script = 201

abbrev pub max_standard_p2wsh_stack_items : ℕ
max_standard_p2wsh_stack_items = 100

abbrev pub max_script_size : ℕ
max_script_size = 10000

abbrev pub max_standard_p2wsh_script_size : ℕ
max_standard_p2wsh_script_size = 3600

abbrev pub max_script_element_size : ℕ
max_script_element_size = 520

abbrev pub max_scriptsig_size : ℕ
max_scriptsig_size = 1650

abbrev pub max_stack_size : ℕ
max_stack_size = 1000

abbrev pub sig_type : Context → SigType
sig_type Context.tap = SigType.schnorr
sig_type _ = SigType.ecdsa

-- Over whether the key is uncompressed.
abbrev pub pk_len : Context → Bool → ℕ
pk_len Context.legacy uncompressed = if uncompressed then 66 else 34
pk_len Context.segwitv0 _ = 34
pk_len Context.tap _ = 33
pk_len Context.bare uncompressed = if uncompressed then 66 else 34

-- A limit that is checked by `>`.
abbrev at_most : ℕ → ℕ → ScriptContextError → Result ScriptContextError (Unit {0})
at_most limit got e = if ltb limit got then err e else ok tt

-- The size check of `check_global_consensus_validity`.
abbrev pub check_size : Bitcoin → Context → ExtData → Result ScriptContextError (Unit {0})
check_size B Context.legacy e =
    at_most max_script_element_size e.pk_cost
      (ScriptContextError.max_redeem_script_size_exceeded max_script_element_size e.pk_cost)
check_size B Context.segwitv0 e =
    at_most max_script_size e.pk_cost
      (ScriptContextError.max_witness_script_size_exceeded max_script_size e.pk_cost)
check_size B Context.tap e =
    at_most B.max_block_weight e.pk_cost
      (ScriptContextError.max_witness_script_size_exceeded B.max_block_weight e.pk_cost)
check_size B Context.bare e =
    at_most max_script_size e.pk_cost
      (ScriptContextError.max_bare_script_size_exceeded max_script_size e.pk_cost)

-- The count must be there, and within the limit.
abbrev op_count_checked : Option ℕ → Result ScriptContextError (Unit {0})
op_count_checked none = err ScriptContextError.impossible_satisfaction
op_count_checked (some op_count) =
    at_most max_ops_per_script op_count
      (ScriptContextError.max_op_count_exceeded op_count max_ops_per_script)

abbrev stack_checked : Option SatData → Result ScriptContextError (Unit {0})
stack_checked none = ok tt
stack_checked (some d) =
    at_most max_stack_size (d.max_witness_stack_count + d.max_exec_stack_count) (
      ScriptContextError.stack_size_limit_exceeded
        (d.max_witness_stack_count + d.max_exec_stack_count) max_stack_size)

abbrev script_sig_checked : Option ℕ → Result ScriptContextError (Unit {0})
script_sig_checked none = err ScriptContextError.impossible_satisfaction
script_sig_checked (some size) =
    at_most max_scriptsig_size size
      (ScriptContextError.max_script_sig_size_exceeded size max_scriptsig_size)

abbrev witness_items_checked : Option ℕ → Result ScriptContextError (Unit {0})
witness_items_checked none = err ScriptContextError.impossible_satisfaction
witness_items_checked (some items) =
    at_most max_standard_p2wsh_stack_items items
      (ScriptContextError.max_witness_items_exceeded items max_standard_p2wsh_stack_items)

module _ {B : Bitcoin} {K : MiniscriptKey} where
  unfoldable pub check_terminal_non_malleable :
      Context → Terminal B K → Result ScriptContextError (Unit {0})
  check_terminal_non_malleable Context.legacy (Terminal.or_i _ _) =
      err ScriptContextError.malleable_or_i
  check_terminal_non_malleable Context.legacy (Terminal.dup_if _) =
      err ScriptContextError.malleable_dup_if
  check_terminal_non_malleable _ _ = ok tt

module _ (K : MiniscriptKey) where
  unfoldable pub check_pk : Context → K.Pk → Result ScriptContextError (Unit {0})
  check_pk Context.legacy pk =
      if K.is_x_only_key pk then err ScriptContextError.x_only_keys_not_allowed else ok tt
  check_pk Context.segwitv0 pk =
      if K.is_uncompressed pk
      then err ScriptContextError.uncompressed_keys_not_allowed
      else if K.is_x_only_key pk
      then err ScriptContextError.x_only_keys_not_allowed
      else ok tt
  check_pk Context.tap pk =
      if K.is_uncompressed pk then err ScriptContextError.uncompressed_keys_not_allowed else ok tt
  check_pk Context.bare pk =
      if K.is_x_only_key pk then err ScriptContextError.x_only_keys_not_allowed else ok tt

  -- `for pk in thresh.iter() { Self::check_pk(pk)?; }`.
  unfoldable pub check_pks : Context → List K.Pk → Result ScriptContextError (Unit {0})
  unfolding check_pk
  check_pks c [] = ok tt
  check_pks c (pk ∷ pks) = do check_pk c pk; check_pks c pks

module _ {B : Bitcoin} {K : MiniscriptKey} where
  -- `node_checked`.
  unfoldable pub check_node : Context → Terminal B K → Result ScriptContextError (Unit {0})
  unfolding check_pk check_pks
  check_node c (Terminal.pk_k pk) = check_pk K c pk
  check_node Context.tap (Terminal.multi_a t) = check_pks K Context.tap t.inner
  check_node _ (Terminal.multi_a t) = err ScriptContextError.multi_a_not_allowed
  check_node Context.tap (Terminal.multi t) = err ScriptContextError.taproot_multi_disabled
  check_node c (Terminal.multi t) = check_pks K c t.inner
  check_node _ _ = ok tt

  unfoldable pub check_global_consensus_validity :
      Context → Miniscript B K → Result ScriptContextError (Unit {0})
  unfolding check_node
  check_global_consensus_validity c ms = do check_node c (node ms); check_size B c (ext ms)

  unfoldable pub check_global_policy_validity :
      Context → Miniscript B K → Result ScriptContextError (Unit {0})
  check_global_policy_validity Context.segwitv0 ms =
      at_most max_standard_p2wsh_script_size (ext ms).pk_cost (
        ScriptContextError.max_witness_script_size_exceeded max_standard_p2wsh_script_size
          (ext ms).pk_cost)
  check_global_policy_validity _ ms = ok tt

  unfoldable pub check_global_validity :
      Context → Miniscript B K → Result ScriptContextError (Unit {0})
  unfolding check_global_consensus_validity check_global_policy_validity
  check_global_validity c ms = do
    check_global_consensus_validity c ms
    check_global_policy_validity c ms

  unfoldable pub max_satisfaction_size : Context → Miniscript B K → Option ℕ
  max_satisfaction_size Context.legacy ms = elim (ext ms).sat_data [
    | none ↦ none
    | some d ↦ some d.max_script_sig_size
  ]
  max_satisfaction_size Context.bare ms = elim (ext ms).sat_data [
    | none ↦ none
    | some d ↦ some d.max_script_sig_size
  ]
  max_satisfaction_size _ ms = elim (ext ms).sat_data [
    | none ↦ none
    | some d ↦ some d.max_witness_stack_size
  ]

  -- `ms.max_satisfaction_witness_elements()`, of src/miniscript/mod.rs.
  unfoldable pub max_satisfaction_witness_elements : Miniscript B K → Option ℕ
  max_satisfaction_witness_elements ms = elim (ext ms).sat_data [
    | none ↦ none
    | some d ↦ some (d.max_witness_stack_count + 1)
  ]

  unfoldable pub check_local_consensus_validity :
      Context → Miniscript B K → Result ScriptContextError (Unit {0})
  unfolding sat_op_count
  check_local_consensus_validity Context.tap ms = stack_checked (ext ms).sat_data
  check_local_consensus_validity _ ms = op_count_checked (sat_op_count (ext ms))

  unfoldable pub check_local_policy_validity :
      Context → Miniscript B K → Result ScriptContextError (Unit {0})
  unfolding max_satisfaction_size max_satisfaction_witness_elements
  check_local_policy_validity Context.legacy ms =
      script_sig_checked (max_satisfaction_size Context.legacy ms)
  check_local_policy_validity Context.segwitv0 ms =
      witness_items_checked (max_satisfaction_witness_elements ms)
  check_local_policy_validity _ ms = ok tt

  unfoldable pub check_local_validity :
      Context → Miniscript B K → Result ScriptContextError (Unit {0})
  unfolding check_global_consensus_validity check_global_policy_validity
      check_local_consensus_validity check_local_policy_validity
  check_local_validity c ms = do
    check_global_consensus_validity c ms
    check_global_policy_validity c ms
    check_local_consensus_validity c ms
    check_local_policy_validity c ms

  -- `BareCtx::other_top_level_checks`: `true` where it is `Ok`.
  abbrev is_key_node : Terminal B K → Bool
  is_key_node (Terminal.raw_pk_h _) = true
  is_key_node (Terminal.pk_k _) = true
  is_key_node (Terminal.pk_h _) = true
  is_key_node _ = false

  unfoldable pub other_top_level_checks : Context → Terminal B K → Bool
  other_top_level_checks Context.bare (Terminal.check ms) = is_key_node (node ms)
  other_top_level_checks Context.bare (Terminal.multi t) = not (ltb 3 (length t.inner))
  other_top_level_checks Context.bare _ = false
  other_top_level_checks _ _ = true
