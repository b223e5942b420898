-- ===== src/Ext/Wrappers.antt =====
-- The `cast_*` functions of src/miniscript/types/extra_props.rs, but those that pass through a
-- combinator.
use rust_miniscript.Prelude.{◌+◌, max, true, false, not, Option, none, some, from_bool}
use rust_miniscript.Ext.Data.{SatData, ExtData, sat}

unfoldable pub cast_alt : ExtData → ExtData
cast_alt s = record s {
  pk_cost = s.pk_cost + 2;
  has_free_verify = false;
  static_ops = 2 + s.static_ops;
  tree_height = s.tree_height + 1;
}

unfoldable pub cast_swap : ExtData → ExtData
cast_swap s = record s {
  pk_cost = s.pk_cost + 1;
  static_ops = 1 + s.static_ops;
  tree_height = s.tree_height + 1;
}

unfoldable pub cast_check : ExtData → ExtData
cast_check s = record s {
  pk_cost = s.pk_cost + 1;
  has_free_verify = true;
  static_ops = 1 + s.static_ops;
  tree_height = s.tree_height + 1;
}

abbrev dupif_sat : SatData → SatData
dupif_sat d = record {
  max_witness_stack_size = d.max_witness_stack_size + 1;
  max_witness_stack_count = d.max_witness_stack_count + 2;
  max_script_sig_size = d.max_script_sig_size + 1;
  max_exec_stack_count = max 1 d.max_exec_stack_count;
  max_exec_op_count = d.max_exec_op_count;
}

-- `Option::map`.
abbrev pub map_sat : (SatData → SatData) → Option SatData → Option SatData
map_sat f none = none
map_sat f (some d) = some (f d)

unfoldable pub cast_dupif : ExtData → ExtData
cast_dupif s = record s {
  pk_cost = s.pk_cost + 3;
  has_free_verify = false;
  static_ops = 3 + s.static_ops;
  sat_data = map_sat dupif_sat s.sat_data;
  dissat_data = some (sat 1 1 1 1 0);
  tree_height = s.tree_height + 1;
}

unfoldable pub cast_verify : ExtData → ExtData
cast_verify s = record s {
  pk_cost = s.pk_cost + from_bool (not s.has_free_verify);
  has_free_verify = false;
  static_ops = from_bool (not s.has_free_verify) + s.static_ops;
  dissat_data = none;
  tree_height = s.tree_height + 1;
}

unfoldable pub cast_nonzero : ExtData → ExtData
cast_nonzero s = record s {
  pk_cost = s.pk_cost + 4;
  has_free_verify = false;
  static_ops = 4 + s.static_ops;
  dissat_data = some (sat 1 1 1 1 0);
  tree_height = s.tree_height + 1;
}

unfoldable pub cast_zeronotequal : ExtData → ExtData
cast_zeronotequal s = record s {
  pk_cost = s.pk_cost + 1;
  has_free_verify = false;
  static_ops = 1 + s.static_ops;
  tree_height = s.tree_height + 1;
}
