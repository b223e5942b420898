-- ===== src/Types/Correctness/Combinators.antt =====
-- The binary, ternary and threshold constructors of src/miniscript/types/correctness.rs.
use rust_miniscript.Prelude.{
  ℕ, zero, suc, ◌+◌, true, false, ◌&&◌, ◌||◌, List, [], ◌∷◌, Result, ok, err, ◌>>=◌, ◌>>◌, guard,
}
use rust_miniscript.Types.Kinds.{Base, Input, ErrorKind, base_eq}
use rust_miniscript.Types.Correctness.{Correctness}

-- `(Base::B, Base::W) => Base::B`, of `and_b` and `or_b`.
abbrev pub bw_base : Base → Base → Result ErrorKind Base
bw_base Base.b Base.w = ok Base.b
bw_base x y = err (ErrorKind.child_base2 x y)

-- The input of `and_b` and `and_v`, whose blocks are the same.
unfoldable pub and_input : Input → Input → Input
and_input Input.zero Input.zero = Input.zero
and_input Input.zero Input.one = Input.one
and_input Input.one Input.zero = Input.one
and_input Input.zero Input.one_non_zero = Input.one_non_zero
and_input Input.one_non_zero Input.zero = Input.one_non_zero
and_input Input.one_non_zero _ = Input.any_non_zero
and_input Input.any_non_zero _ = Input.any_non_zero
and_input Input.zero Input.any_non_zero = Input.any_non_zero
and_input _ _ = Input.any

unfoldable pub and_b : Correctness → Correctness → Result ErrorKind Correctness
and_b l r = do
  base ← bw_base l.base r.base
  ok (record {
    base = base;
    input = and_input l.input r.input;
    dissatisfiable = l.dissatisfiable && r.dissatisfiable;
    unit = true;
  })

abbrev pub and_v_base : Base → Base → Result ErrorKind Base
and_v_base Base.v Base.b = ok Base.b
and_v_base Base.v Base.k = ok Base.k
and_v_base Base.v Base.v = ok Base.v
and_v_base x y = err (ErrorKind.child_base2 x y)

unfoldable pub and_v : Correctness → Correctness → Result ErrorKind Correctness
and_v l r = do
  base ← and_v_base l.base r.base
  ok (record {
    base = base;
    input = and_input l.input r.input;
    dissatisfiable = false;
    unit = r.unit;
  })

unfoldable pub or_b_input : Input → Input → Input
or_b_input Input.zero Input.zero = Input.zero
or_b_input Input.zero Input.one = Input.one
or_b_input Input.one Input.zero = Input.one
or_b_input Input.zero Input.one_non_zero = Input.one
or_b_input Input.one_non_zero Input.zero = Input.one
or_b_input _ _ = Input.any

unfoldable pub or_b : Correctness → Correctness → Result ErrorKind Correctness
or_b l r = do
  guard l.dissatisfiable ErrorKind.left_not_dissatisfiable
  guard r.dissatisfiable ErrorKind.right_not_dissatisfiable
  base ← bw_base l.base r.base
  ok (record {
    base = base;
    input = or_b_input l.input r.input;
    dissatisfiable = true;
    unit = true;
  })

abbrev pub or_d_base : Base → Base → Result ErrorKind Base
or_d_base Base.b Base.b = ok Base.b
or_d_base x y = err (ErrorKind.child_base2 x y)

-- The input of `or_d` and `or_c`, whose blocks are the same.
unfoldable pub or_d_input : Input → Input → Input
or_d_input Input.zero Input.zero = Input.zero
or_d_input Input.one Input.zero = Input.one
or_d_input Input.one_non_zero Input.zero = Input.one
or_d_input _ _ = Input.any

unfoldable pub or_d : Correctness → Correctness → Result ErrorKind Correctness
or_d l r = do
  guard l.dissatisfiable ErrorKind.left_not_dissatisfiable
  guard l.unit ErrorKind.left_not_unit
  base ← or_d_base l.base r.base
  ok (record {
    base = base;
    input = or_d_input l.input r.input;
    dissatisfiable = r.dissatisfiable;
    unit = r.unit;
  })

abbrev pub or_c_base : Base → Base → Result ErrorKind Base
or_c_base Base.b Base.v = ok Base.v
or_c_base x y = err (ErrorKind.child_base2 x y)

unfoldable pub or_c : Correctness → Correctness → Result ErrorKind Correctness
or_c l r = do
  guard l.dissatisfiable ErrorKind.left_not_dissatisfiable
  guard l.unit ErrorKind.left_not_unit
  base ← or_c_base l.base r.base
  ok (record {
    base = base;
    input = or_d_input l.input r.input;
    dissatisfiable = false;
    unit = false;
  })

abbrev pub or_i_base : Base → Base → Result ErrorKind Base
or_i_base Base.b Base.b = ok Base.b
or_i_base Base.v Base.v = ok Base.v
or_i_base Base.k Base.k = ok Base.k
or_i_base x y = err (ErrorKind.child_base2 x y)

unfoldable pub or_i_input : Input → Input → Input
or_i_input Input.zero Input.zero = Input.one
or_i_input _ _ = Input.any

unfoldable pub or_i : Correctness → Correctness → Result ErrorKind Correctness
or_i l r = do
  base ← or_i_base l.base r.base
  ok (record {
    base = base;
    input = or_i_input l.input r.input;
    dissatisfiable = l.dissatisfiable || r.dissatisfiable;
    unit = l.unit && r.unit;
  })

abbrev pub and_or_base : Base → Base → Base → Result ErrorKind Base
and_or_base Base.b Base.b Base.b = ok Base.b
and_or_base Base.b Base.k Base.k = ok Base.k
and_or_base Base.b Base.v Base.v = ok Base.v
and_or_base x y z = err (ErrorKind.child_base3 x y z)

unfoldable pub and_or_input : Input → Input → Input → Input
and_or_input Input.zero Input.zero Input.zero = Input.zero
and_or_input Input.zero Input.one Input.one = Input.one
and_or_input Input.zero Input.one Input.one_non_zero = Input.one
and_or_input Input.zero Input.one_non_zero Input.one = Input.one
and_or_input Input.zero Input.one_non_zero Input.one_non_zero = Input.one
and_or_input Input.one Input.zero Input.zero = Input.one
and_or_input Input.one_non_zero Input.zero Input.zero = Input.one
and_or_input _ _ _ = Input.any

unfoldable pub and_or : Correctness → Correctness → Correctness → Result ErrorKind Correctness
and_or x y z = do
  guard x.dissatisfiable ErrorKind.left_not_dissatisfiable
  guard x.unit ErrorKind.left_not_unit
  base ← and_or_base x.base y.base z.base
  ok (record {
    base = base;
    input = and_or_input x.input y.input z.input;
    dissatisfiable = z.dissatisfiable;
    unit = y.unit && z.unit;
  })

-- How much a child of a threshold adds to `num_args`.
abbrev pub arg_count : Input → ℕ
arg_count Input.zero = 0
arg_count Input.one = 1
arg_count Input.one_non_zero = 1
arg_count Input.any = 2
arg_count Input.any_non_zero = 2

-- The base that the child at index `i` must have.
abbrev pub threshold_child : ℕ → Base
threshold_child zero = Base.b
threshold_child (suc i) = Base.w

-- The loop over the children, from index `i` with `num_args` counted so far.
unfoldable pub threshold_loop : ℕ → ℕ → List Correctness → Result ErrorKind ℕ
threshold_loop i num_args [] = ok num_args
threshold_loop i num_args (sub ∷ subs) = do
  let num_args' = num_args + arg_count sub.input
  guard (base_eq sub.base (threshold_child i)) (ErrorKind.threshold_base i sub.base)
  guard sub.unit (ErrorKind.threshold_non_unit i)
  guard sub.dissatisfiable (ErrorKind.threshold_dissat i)
  threshold_loop (suc i) num_args' subs

abbrev pub threshold_input : ℕ → Input
threshold_input zero = Input.zero
threshold_input (suc zero) = Input.one
threshold_input _ = Input.any

unfoldable pub threshold : ℕ → List Correctness → Result ErrorKind Correctness
unfolding threshold_loop
threshold k subs = do
  num_args ← threshold_loop 0 0 subs
  ok (record {
    base = Base.b;
    input = threshold_input num_args;
    dissatisfiable = true;
    unit = true;
  })
