-- ===== src/Ext/Combinators.antt =====
-- The combinators of src/miniscript/types/extra_props.rs, and the casts that pass through them.
use rust_miniscript.Prelude.{◌+◌, max, false, none}
use rust_miniscript.Ext.Timelock.{combine_and, combine_or}
use rust_miniscript.Ext.Data.{SatData, ExtData, zip_with, fieldwise_max_opt, ext_true, ext_false}
use rust_miniscript.Ext.Wrappers.{map_sat}

-- Two witnesses one after the other, where the first leaves an element on the stack meanwhile.
abbrev pub concat_above : SatData → SatData → SatData
concat_above l r = record {
  max_witness_stack_size = l.max_witness_stack_size + r.max_witness_stack_size;
  max_witness_stack_count = l.max_witness_stack_count + r.max_witness_stack_count;
  max_script_sig_size = l.max_script_sig_size + r.max_script_sig_size;
  max_exec_stack_count = max l.max_exec_stack_count (1 + r.max_exec_stack_count);
  max_exec_op_count = l.max_exec_op_count + r.max_exec_op_count;
}

-- Where the first leaves nothing.
abbrev pub concat_after : SatData → SatData → SatData
concat_after l r = record {
  max_witness_stack_size = l.max_witness_stack_size + r.max_witness_stack_size;
  max_witness_stack_count = l.max_witness_stack_count + r.max_witness_stack_count;
  max_script_sig_size = l.max_script_sig_size + r.max_script_sig_size;
  max_exec_stack_count = max l.max_exec_stack_count r.max_exec_stack_count;
  max_exec_op_count = l.max_exec_op_count + r.max_exec_op_count;
}

unfoldable pub and_b : ExtData → ExtData → ExtData
unfolding combine_and
and_b l r = record {
  pk_cost = l.pk_cost + r.pk_cost + 1;
  has_free_verify = false;
  static_ops = 1 + l.static_ops + r.static_ops;
  sat_data = zip_with concat_above l.sat_data r.sat_data;
  dissat_data = zip_with concat_above l.dissat_data r.dissat_data;
  timelock_info = combine_and l.timelock_info r.timelock_info;
  tree_height = 1 + max l.tree_height r.tree_height;
}

unfoldable pub and_v : ExtData → ExtData → ExtData
unfolding combine_and
and_v l r = record {
  pk_cost = l.pk_cost + r.pk_cost;
  has_free_verify = r.has_free_verify;
  static_ops = l.static_ops + r.static_ops;
  sat_data = zip_with concat_after l.sat_data r.sat_data;
  dissat_data = none;
  timelock_info = combine_and l.timelock_info r.timelock_info;
  tree_height = 1 + max l.tree_height r.tree_height;
}

unfoldable pub or_b : ExtData → ExtData → ExtData
unfolding combine_or fieldwise_max_opt
or_b l r = record {
  pk_cost = l.pk_cost + r.pk_cost + 1;
  has_free_verify = false;
  static_ops = 1 + l.static_ops + r.static_ops;
  sat_data =
      fieldwise_max_opt (zip_with concat_above l.sat_data r.dissat_data)
        (zip_with concat_above l.dissat_data r.sat_data);
  dissat_data = zip_with concat_above l.dissat_data r.dissat_data;
  timelock_info = combine_or l.timelock_info r.timelock_info;
  tree_height = 1 + max l.tree_height r.tree_height;
}

unfoldable pub or_d : ExtData → ExtData → ExtData
unfolding combine_or fieldwise_max_opt
or_d l r = record {
  pk_cost = l.pk_cost + r.pk_cost + 3;
  has_free_verify = false;
  static_ops = 3 + l.static_ops + r.static_ops;
  sat_data = fieldwise_max_opt l.sat_data (zip_with concat_after l.dissat_data r.sat_data);
  dissat_data = zip_with concat_after l.dissat_data r.dissat_data;
  timelock_info = combine_or l.timelock_info r.timelock_info;
  tree_height = 1 + max l.tree_height r.tree_height;
}

unfoldable pub or_c : ExtData → ExtData → ExtData
unfolding combine_or fieldwise_max_opt
or_c l r = record {
  pk_cost = l.pk_cost + r.pk_cost + 2;
  has_free_verify = false;
  static_ops = 2 + l.static_ops + r.static_ops;
  sat_data = fieldwise_max_opt l.sat_data (zip_with concat_after l.dissat_data r.sat_data);
  dissat_data = none;
  timelock_info = combine_or l.timelock_info r.timelock_info;
  tree_height = 1 + max l.tree_height r.tree_height;
}

abbrev with_0 : SatData → SatData
with_0 d = record d {
  max_witness_stack_size = 1 + d.max_witness_stack_size;
  max_witness_stack_count = 1 + d.max_witness_stack_count;
  max_script_sig_size = 1 + d.max_script_sig_size;
}

abbrev with_1 : SatData → SatData
with_1 d = record d {
  max_witness_stack_size = 2 + d.max_witness_stack_size;
  max_witness_stack_count = 1 + d.max_witness_stack_count;
  max_script_sig_size = 1 + d.max_script_sig_size;
}

unfoldable pub or_i : ExtData → ExtData → ExtData
unfolding combine_or fieldwise_max_opt
or_i l r = record {
  pk_cost = l.pk_cost + r.pk_cost + 3;
  has_free_verify = false;
  static_ops = 3 + l.static_ops + r.static_ops;
  sat_data = fieldwise_max_opt (map_sat with_1 l.sat_data) (map_sat with_0 r.sat_data);
  dissat_data = fieldwise_max_opt (map_sat with_1 l.dissat_data) (map_sat with_0 r.dissat_data);
  timelock_info = combine_or l.timelock_info r.timelock_info;
  tree_height = 1 + max l.tree_height r.tree_height;
}

unfoldable pub and_or : ExtData → ExtData → ExtData → ExtData
unfolding combine_and combine_or fieldwise_max_opt
and_or x y z = record {
  pk_cost = x.pk_cost + y.pk_cost + z.pk_cost + 3;
  has_free_verify = false;
  static_ops = 3 + x.static_ops + y.static_ops + z.static_ops;
  sat_data =
      fieldwise_max_opt (zip_with concat_after x.sat_data y.sat_data)
        (zip_with concat_after x.dissat_data z.sat_data);
  dissat_data = zip_with concat_after x.dissat_data z.dissat_data;
  timelock_info = combine_or (combine_and x.timelock_info y.timelock_info) z.timelock_info;
  tree_height = 1 + max x.tree_height (max y.tree_height z.tree_height);
}

unfoldable pub cast_true : ExtData → ExtData
unfolding and_v
cast_true s = and_v s ext_true

unfoldable pub cast_unlikely : ExtData → ExtData
unfolding or_i
cast_unlikely s = or_i s ext_false

unfoldable pub cast_likely : ExtData → ExtData
unfolding or_i
cast_likely s = or_i ext_false s
