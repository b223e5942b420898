-- ===== src/Types/Correctness.antt =====
-- src/miniscript/types/correctness.rs: the record, the subtype test, the assertions and the
-- types of the leaves. The wrappers and the combinators are in the children.
pub mod Wrappers
pub mod Combinators
use rust_miniscript.Prelude.{Bool, true, false, not, ◌&&◌, geb}
use rust_miniscript.Types.Kinds.{Base, Input, base_eq, input_eq, input_is_subtype}

pub record Correctness : Type 0 where
  pub base : Base
  pub input : Input
  pub dissatisfiable : Bool
  pub unit : Bool

abbrev pub correct_true : Correctness
correct_true = record { base = Base.b; input = Input.zero; dissatisfiable = false; unit = true }

abbrev pub correct_false : Correctness
correct_false = record { base = Base.b; input = Input.zero; dissatisfiable = true; unit = true }

unfoldable pub is_subtype : Correctness → Correctness → Bool
is_subtype s o =
    base_eq s.base o.base
    && input_is_subtype s.input o.input
    && geb s.dissatisfiable o.dissatisfiable
    && geb s.unit o.unit

-- The `debug_assert!`s of `sanity_checks`, as one test.
sanity_of : Base → Correctness → Bool
sanity_of Base.b c = true
sanity_of Base.k c = c.unit
sanity_of Base.v c = not c.unit && not c.dissatisfiable
sanity_of Base.w c =
    not (input_eq c.input Input.one_non_zero) && not (input_eq c.input Input.any_non_zero)

unfoldable pub sanity_checks : Correctness → Bool
unfolding sanity_of
sanity_checks c = sanity_of c.base c

abbrev pub pk_k : Correctness
pk_k = record { base = Base.k; input = Input.one_non_zero; dissatisfiable = true; unit = true }

abbrev pub pk_h : Correctness
pk_h = record { base = Base.k; input = Input.any_non_zero; dissatisfiable = true; unit = true }

abbrev pub multi : Correctness
multi = record { base = Base.b; input = Input.any_non_zero; dissatisfiable = true; unit = true }

abbrev pub multi_a : Correctness
multi_a = record { base = Base.b; input = Input.any; dissatisfiable = true; unit = true }

abbrev pub hash : Correctness
hash = record { base = Base.b; input = Input.one_non_zero; dissatisfiable = true; unit = true }

abbrev pub time : Correctness
time = record { base = Base.b; input = Input.zero; dissatisfiable = false; unit = false }
