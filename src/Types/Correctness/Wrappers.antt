-- ===== src/Types/Correctness/Wrappers.antt =====
-- The `cast_*` constructors of src/miniscript/types/correctness.rs.
use rust_miniscript.Prelude.{true, false, not, ◌&&◌, Result, ok, err, ◌>>=◌, ◌>>◌, guard}
use rust_miniscript.Types.Kinds.{Base, Input, ErrorKind, input_eq}
use rust_miniscript.Types.Correctness.{Correctness}

-- The `match self.base` blocks: one base is accepted and mapped, any other is an error.
abbrev pub b_to : Base → Base → Result ErrorKind Base
b_to to Base.b = ok to
b_to to x = err (ErrorKind.child_base1 x)

abbrev pub k_to : Base → Base → Result ErrorKind Base
k_to to Base.k = ok to
k_to to x = err (ErrorKind.child_base1 x)

abbrev pub v_to : Base → Base → Result ErrorKind Base
v_to to Base.v = ok to
v_to to x = err (ErrorKind.child_base1 x)

unfoldable pub cast_alt : Correctness → Result ErrorKind Correctness
cast_alt s = do
  base ← b_to Base.w s.base
  ok (record { base = base; input = Input.any; dissatisfiable = s.dissatisfiable; unit = s.unit })

abbrev pub swap_input : Input → Result ErrorKind Input
swap_input Input.one = ok Input.any
swap_input Input.one_non_zero = ok Input.any
swap_input _ = err ErrorKind.swap_non_one

unfoldable pub cast_swap : Correctness → Result ErrorKind Correctness
cast_swap s = do
  base ← b_to Base.w s.base
  input ← swap_input s.input
  ok (record { base = base; input = input; dissatisfiable = s.dissatisfiable; unit = s.unit })

unfoldable pub cast_check : Correctness → Result ErrorKind Correctness
cast_check s = do
  base ← k_to Base.b s.base
  ok (record { base = base; input = s.input; dissatisfiable = s.dissatisfiable; unit = true })

abbrev pub dupif_input : Input → Result ErrorKind Input
dupif_input Input.zero = ok Input.one_non_zero
dupif_input _ = err ErrorKind.non_zero_dup_if

unfoldable pub cast_dupif : Correctness → Result ErrorKind Correctness
cast_dupif s = do
  base ← v_to Base.b s.base
  input ← dupif_input s.input
  ok (record { base = base; input = input; dissatisfiable = true; unit = false })

unfoldable pub cast_verify : Correctness → Result ErrorKind Correctness
cast_verify s = do
  base ← b_to Base.v s.base
  ok (record { base = base; input = s.input; dissatisfiable = false; unit = false })

unfoldable pub cast_nonzero : Correctness → Result ErrorKind Correctness
cast_nonzero s = do
  guard
      (not (not (input_eq s.input Input.one_non_zero) && not (input_eq s.input Input.any_non_zero)))
      ErrorKind.non_zero_zero
  base ← b_to Base.b s.base
  ok (record { base = base; input = s.input; dissatisfiable = true; unit = s.unit })

unfoldable pub cast_zeronotequal : Correctness → Result ErrorKind Correctness
cast_zeronotequal s = do
  base ← b_to Base.b s.base
  ok (record { base = base; input = s.input; dissatisfiable = s.dissatisfiable; unit = true })

unfoldable pub cast_true : Correctness → Result ErrorKind Correctness
cast_true s = do
  base ← v_to Base.b s.base
  ok (record { base = base; input = s.input; dissatisfiable = false; unit = true })

abbrev or_i_false_input : Input → Input
or_i_false_input Input.zero = Input.one
or_i_false_input _ = Input.any

unfoldable pub cast_or_i_false : Correctness → Result ErrorKind Correctness
cast_or_i_false s = do
  base ← b_to Base.b s.base
  ok (record {
    base = base;
    input = or_i_false_input s.input;
    dissatisfiable = true;
    unit = s.unit;
  })
