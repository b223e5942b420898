-- ===== src/Types/Kinds.antt =====
-- The enumerations of src/miniscript/types: base types, input properties, dissatisfactions and the
-- kinds of type error. Their constructors are always written behind the type, `Base.b`.
use Prim.Native.Nat.{ℕ}
use mathlib.Core.Bool.{Bool, true, false}

pub data Base : Type 0 where
  b k v w : Base

pub data Input : Type 0 where
  zero one any one_non_zero any_non_zero : Input

pub data Dissat : Type 0 where
  none unique unknown : Dissat

pub data ErrorKind : Type 0 where
  invalid_inscription : ErrorKind
  non_zero_dup_if : ErrorKind
  left_not_dissatisfiable : ErrorKind
  right_not_dissatisfiable : ErrorKind
  swap_non_one : ErrorKind
  non_zero_zero : ErrorKind
  left_not_unit : ErrorKind
  child_base1 : Base → ErrorKind
  child_base2 : Base → Base → ErrorKind
  child_base3 : Base → Base → Base → ErrorKind
  threshold_base : ℕ → Base → ErrorKind
  threshold_dissat : ℕ → ErrorKind
  threshold_non_unit : ℕ → ErrorKind

-- `self.base as u8 == other.base as u8`.
abbrev pub base_eq : Base → Base → Bool
base_eq b b = true
base_eq k k = true
base_eq v v = true
base_eq w w = true
base_eq _ _ = false

abbrev pub input_eq : Input → Input → Bool
input_eq zero zero = true
input_eq one one = true
input_eq any any = true
input_eq one_non_zero one_non_zero = true
input_eq any_non_zero any_non_zero = true
input_eq _ _ = false

abbrev pub input_is_subtype : Input → Input → Bool
input_is_subtype zero zero = true
input_is_subtype one one = true
input_is_subtype any_non_zero any_non_zero = true
input_is_subtype one_non_zero one_non_zero = true
input_is_subtype one_non_zero one = true
input_is_subtype one_non_zero any_non_zero = true
input_is_subtype _ any = true
input_is_subtype _ _ = false

abbrev pub dissat_eq : Dissat → Dissat → Bool
dissat_eq none none = true
dissat_eq unique unique = true
dissat_eq unknown unknown = true
dissat_eq _ _ = false

abbrev pub dissat_is_subtype : Dissat → Dissat → Bool
dissat_is_subtype none none = true
dissat_is_subtype unique unique = true
dissat_is_subtype _ unknown = true
dissat_is_subtype _ _ = false
