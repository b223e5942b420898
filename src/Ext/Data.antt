-- ===== src/Ext/Data.antt =====
-- `SatData` and `ExtData` of src/miniscript/types/extra_props.rs, and `script_num_size`.
use rust_miniscript.Prelude.{ℕ, ◌+◌, max, Bool, false, Option, none, some, leb, ltb, if◌then◌else◌}
use rust_miniscript.Ext.Timelock.{TimelockInfo, new}

-- src/lib.rs.
unfoldable pub script_num_size : ℕ → ℕ
script_num_size n =
    if leb n 0x10
    then 1
    else if ltb n 0x80
    then 2
    else if ltb n 0x8000
    then 3
    else if ltb n 0x800000
    then 4
    else if ltb n 0x80000000
    then 5
    else 6

pub record SatData : Type 0 where
  pub max_witness_stack_size : ℕ
  pub max_witness_stack_count : ℕ
  pub max_script_sig_size : ℕ
  pub max_exec_stack_count : ℕ
  pub max_exec_op_count : ℕ

unfoldable pub fieldwise_max : SatData → SatData → SatData
fieldwise_max s o = record {
  max_witness_stack_size = max s.max_witness_stack_size o.max_witness_stack_size;
  max_witness_stack_count = max s.max_witness_stack_count o.max_witness_stack_count;
  max_script_sig_size = max s.max_script_sig_size o.max_script_sig_size;
  max_exec_stack_count = max s.max_exec_stack_count o.max_exec_stack_count;
  max_exec_op_count = max s.max_exec_op_count o.max_exec_op_count;
}

unfoldable pub fieldwise_max_opt : Option SatData → Option SatData → Option SatData
unfolding fieldwise_max
fieldwise_max_opt none none = none
fieldwise_max_opt (some x) none = some x
fieldwise_max_opt none (some y) = some y
fieldwise_max_opt (some x) (some y) = some (fieldwise_max x y)

-- `l.zip(r).map(f)`.
abbrev pub zip_with {ℓ} : {A : Type ℓ} → (A → A → A) → Option A → Option A → Option A
zip_with f (some l) (some r) = some (f l r)
zip_with f _ _ = none

pub record ExtData : Type 0 where
  pub pk_cost : ℕ
  pub has_free_verify : Bool
  pub static_ops : ℕ
  pub sat_data : Option SatData
  pub dissat_data : Option SatData
  pub timelock_info : TimelockInfo
  pub tree_height : ℕ

-- `self.static_ops + data.max_exec_op_count`, in the satisfaction case.
unfoldable pub sat_op_count : ExtData → Option ℕ
sat_op_count e = elim e.sat_data [
  | none ↦ none
  | some d ↦ some (e.static_ops + d.max_exec_op_count)
]

-- A `SatData` literal: size, count, script sig, stack, opcodes.
abbrev pub sat : ℕ → ℕ → ℕ → ℕ → ℕ → SatData
sat size count script_sig exec_stack exec_op = record {
  max_witness_stack_size = size;
  max_witness_stack_count = count;
  max_script_sig_size = script_sig;
  max_exec_stack_count = exec_stack;
  max_exec_op_count = exec_op;
}

abbrev pub ext_false : ExtData
ext_false = record {
  pk_cost = 1;
  has_free_verify = false;
  static_ops = 0;
  sat_data = none;
  dissat_data = some (sat 0 0 0 1 0);
  timelock_info = new;
  tree_height = 0;
}

abbrev pub ext_true : ExtData
ext_true = record {
  pk_cost = 1;
  has_free_verify = false;
  static_ops = 0;
  sat_data = some (sat 0 0 0 1 0);
  dissat_data = none;
  timelock_info = new;
  tree_height = 0;
}

abbrev pub tx_template : ExtData
tx_template = record {
  pk_cost = 35;
  has_free_verify = false;
  static_ops = 2;
  sat_data = some (sat 0 0 0 1 0);
  dissat_data = none;
  timelock_info = new;
  tree_height = 0;
}
