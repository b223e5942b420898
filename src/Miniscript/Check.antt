-- ===== src/Miniscript/Check.antt =====
-- `Type::type_check` of src/miniscript/types/mod.rs and `ExtData::type_check` of extra_props.rs: the
-- annotations of a node, from those of its children. The text of the fragment in a type error is
-- left out.
use rust_miniscript.Prelude.{
  ℕ, ◌+◌, ◌*◌, max, Bool, true, false, ◌||◌, Option, none, some, List, [], ◌∷◌, map, length, ltb,
  Result, ok, err, if◌then◌else◌,
}
use rust_miniscript.Primitives.Locktime.{Bitcoin}
use rust_miniscript.Types.Kinds.{ErrorKind}
use rust_miniscript.Types.Fragment
use rust_miniscript.Types.Fragment.{Ty}
use rust_miniscript.Ext.Data
use rust_miniscript.Ext.Data.{SatData, ExtData}
use rust_miniscript.Ext.Leaves
use rust_miniscript.Ext.Leaves.{SigType}
use rust_miniscript.Ext.Wrappers
use rust_miniscript.Ext.Wrappers.{map_sat}
use rust_miniscript.Ext.Combinators
use rust_miniscript.Ext.Threshold
use rust_miniscript.Miniscript.Ast.{MiniscriptKey, Bytes, Inscription, Terminal, ty, ext, tys, exts}

-- Whether `field` is there and longer than a script element may be.
abbrev too_long : ℕ → Option Bytes → Bool
too_long limit none = false
too_long limit (some value) = ltb limit (length value)

-- `Inscription::validate(..).is_err()`, over the six fields that cannot be chunked.
unfoldable pub validate_is_err : Bitcoin → Inscription → Bool
validate_is_err B i =
    too_long B.max_script_element_size i.content_type
    || too_long B.max_script_element_size i.content_encoding
    || too_long B.max_script_element_size i.metaprotocol
    || too_long B.max_script_element_size i.parent
    || too_long B.max_script_element_size i.delegate
    || too_long B.max_script_element_size i.pointer

unfoldable pub any_invalid : Bitcoin → List Inscription → Bool
unfolding validate_is_err
any_invalid B [] = false
any_invalid B (i ∷ is) = validate_is_err B i || any_invalid B is

abbrev pub is_empty : List Inscription → Bool
is_empty [] = true
is_empty (i ∷ is) = false

unfoldable pub check_inscribe : Bitcoin → List Inscription → Ty → Result ErrorKind Ty
unfolding any_invalid
check_inscribe B i t =
    if is_empty i || any_invalid B i then err ErrorKind.invalid_inscription else ok t

module _ {B : Bitcoin} {K : MiniscriptKey} where
  unfoldable pub type_check : Terminal B K → Result ErrorKind Ty
  type_check Terminal.true = ok Fragment.type_true
  type_check Terminal.false = ok Fragment.type_false
  type_check (Terminal.pk_k _) = ok Fragment.pk_k
  type_check (Terminal.pk_h _) = ok Fragment.pk_h
  type_check (Terminal.raw_pk_h _) = ok Fragment.pk_h
  type_check (Terminal.multi _) = ok Fragment.multi
  type_check (Terminal.multi_a _) = ok Fragment.multi_a
  type_check (Terminal.after _) = ok Fragment.time
  type_check (Terminal.older _) = ok Fragment.time
  type_check (Terminal.sha256 _) = ok Fragment.hash
  type_check (Terminal.hash256 _) = ok Fragment.hash
  type_check (Terminal.ripemd160 _) = ok Fragment.hash
  type_check (Terminal.hash160 _) = ok Fragment.hash
  type_check (Terminal.tx_template _) = ok Fragment.tx_template
  type_check (Terminal.inscribe_pre i sub) = check_inscribe B i (ty sub)
  type_check (Terminal.inscribe_post i sub) = check_inscribe B i (ty sub)
  type_check (Terminal.alt sub) = Fragment.cast_alt (ty sub)
  type_check (Terminal.swap sub) = Fragment.cast_swap (ty sub)
  type_check (Terminal.check sub) = Fragment.cast_check (ty sub)
  type_check (Terminal.dup_if sub) = Fragment.cast_dupif (ty sub)
  type_check (Terminal.verify sub) = Fragment.cast_verify (ty sub)
  type_check (Terminal.non_zero sub) = Fragment.cast_nonzero (ty sub)
  type_check (Terminal.zero_not_equal sub) = Fragment.cast_zeronotequal (ty sub)
  type_check (Terminal.and_b l r) = Fragment.and_b (ty l) (ty r)
  type_check (Terminal.and_v l r) = Fragment.and_v (ty l) (ty r)
  type_check (Terminal.or_b l r) = Fragment.or_b (ty l) (ty r)
  type_check (Terminal.or_d l r) = Fragment.or_d (ty l) (ty r)
  type_check (Terminal.or_c l r) = Fragment.or_c (ty l) (ty r)
  type_check (Terminal.or_i l r) = Fragment.or_i (ty l) (ty r)
  type_check (Terminal.and_or x y z) = Fragment.and_or (ty x) (ty y) (ty z)
  type_check (Terminal.thresh k subs) = Fragment.threshold k (tys subs)

-- The encoded length of each envelope is that of the external script builder.
unfoldable pub size_guesses : (Inscription → ℕ) → List Inscription → ℕ
size_guesses size [] = 0
size_guesses size (i ∷ is) = size i + size_guesses size is

abbrev inscribed_sat : Bool → SatData → SatData
inscribed_sat postfix d = record d {
  max_exec_stack_count =
      if postfix then d.max_exec_stack_count + 1 else max d.max_exec_stack_count 1;
}

unfoldable pub inscribing : (Inscription → ℕ) → List Inscription → Bool → ExtData → ExtData
unfolding size_guesses
inscribing size i postfix s = record s {
  pk_cost = s.pk_cost + size_guesses size i;
  static_ops = s.static_ops + 2 * length i;
  tree_height = s.tree_height + 1;
  has_free_verify = if postfix then false else s.has_free_verify;
  sat_data = map_sat (inscribed_sat postfix) s.sat_data;
  dissat_data = map_sat (inscribed_sat postfix) s.dissat_data;
}

module _ {B : Bitcoin} {K : MiniscriptKey} (size : Inscription → ℕ) (sig : SigType) where
  unfoldable pub ext_check : Terminal B K → ExtData
  ext_check Terminal.true = Data.ext_true
  ext_check Terminal.false = Data.ext_false
  ext_check (Terminal.pk_k pk) = Leaves.pk_k sig (K.is_uncompressed pk)
  ext_check (Terminal.pk_h pk) = Leaves.pk_h sig (some (K.is_uncompressed pk))
  ext_check (Terminal.raw_pk_h _) = Leaves.pk_h sig none
  ext_check (Terminal.multi t) = Leaves.multi t.k (length t.inner) (map K.is_uncompressed t.inner)
  ext_check (Terminal.multi_a t) = Leaves.multi_a t.k (length t.inner)
  ext_check (Terminal.after t) =
      Leaves.after (B.lock_to_consensus_u32 t.inner) (B.is_block_height t.inner)
        (B.is_block_time t.inner)
  ext_check (Terminal.older t) =
      Leaves.older (B.sequence_to_consensus_u32 t.inner) (B.is_height_locked t.inner)
        (B.is_time_locked t.inner)
  ext_check (Terminal.sha256 _) = Leaves.sha256
  ext_check (Terminal.hash256 _) = Leaves.hash256
  ext_check (Terminal.ripemd160 _) = Leaves.ripemd160
  ext_check (Terminal.hash160 _) = Leaves.hash160
  ext_check (Terminal.tx_template _) = Data.tx_template
  ext_check (Terminal.inscribe_pre i sub) = inscribing size i false (ext sub)
  ext_check (Terminal.inscribe_post i sub) = inscribing size i true (ext sub)
  ext_check (Terminal.alt sub) = Wrappers.cast_alt (ext sub)
  ext_check (Terminal.swap sub) = Wrappers.cast_swap (ext sub)
  ext_check (Terminal.check sub) = Wrappers.cast_check (ext sub)
  ext_check (Terminal.dup_if sub) = Wrappers.cast_dupif (ext sub)
  ext_check (Terminal.verify sub) = Wrappers.cast_verify (ext sub)
  ext_check (Terminal.non_zero sub) = Wrappers.cast_nonzero (ext sub)
  ext_check (Terminal.zero_not_equal sub) = Wrappers.cast_zeronotequal (ext sub)
  ext_check (Terminal.and_b l r) = Combinators.and_b (ext l) (ext r)
  ext_check (Terminal.and_v l r) = Combinators.and_v (ext l) (ext r)
  ext_check (Terminal.or_b l r) = Combinators.or_b (ext l) (ext r)
  ext_check (Terminal.or_d l r) = Combinators.or_d (ext l) (ext r)
  ext_check (Terminal.or_c l r) = Combinators.or_c (ext l) (ext r)
  ext_check (Terminal.or_i l r) = Combinators.or_i (ext l) (ext r)
  ext_check (Terminal.and_or x y z) = Combinators.and_or (ext x) (ext y) (ext z)
  ext_check (Terminal.thresh k subs) = Threshold.threshold k (length (exts subs)) (exts subs)
