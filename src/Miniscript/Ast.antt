-- ===== src/Miniscript/Ast.antt =====
-- The syntax tree: `MiniscriptKey` of src/lib.rs, `Terminal` of src/miniscript/decode.rs,
-- `Miniscript` of src/miniscript/mod.rs and `Inscription` of src/ord/mod.rs. Hashes that are fixed
-- types of the bitcoin crate are lists of bytes.
use rust_miniscript.Prelude.{ℕ, Bool, Option, List, [], ◌∷◌}
use rust_miniscript.Primitives.Threshold.{Threshold}
use rust_miniscript.Primitives.Locktime.{Bitcoin, AbsLockTime, RelLockTime}
use rust_miniscript.Types.Fragment.{Ty}
use rust_miniscript.Ext.Data.{ExtData}

-- The trait: a type of keys, its two tests, and its types of hashes.
pub record MiniscriptKey : Type 1 where
  pub Pk : Type 0
  pub is_uncompressed : Pk → Bool
  pub is_x_only_key : Pk → Bool
  pub Sha256 : Type 0
  pub Hash256 : Type 0
  pub Ripemd160 : Type 0
  pub Hash160 : Type 0

abbrev pub Bytes : Type 0
Bytes = List ℕ

pub record Inscription : Type 0 where
  pub body : Option Bytes
  pub content_encoding : Option Bytes
  pub content_type : Option Bytes
  pub delegate : Option Bytes
  pub duplicate_field : Bool
  pub incomplete_field : Bool
  pub metadata : Option Bytes
  pub metaprotocol : Option Bytes
  pub parent : Option Bytes
  pub pointer : Option Bytes
  pub unrecognized_even_field : Bool

mutual
  pub data Terminal (B : Bitcoin) (K : MiniscriptKey) : Type 0 where
    true : Terminal B K
    false : Terminal B K
    pk_k : K.Pk → Terminal B K
    pk_h : K.Pk → Terminal B K
    raw_pk_h : Bytes → Terminal B K
    after : AbsLockTime B → Terminal B K
    older : RelLockTime B → Terminal B K
    sha256 : K.Sha256 → Terminal B K
    hash256 : K.Hash256 → Terminal B K
    ripemd160 : K.Ripemd160 → Terminal B K
    hash160 : K.Hash160 → Terminal B K
    tx_template : Bytes → Terminal B K
    inscribe_pre : List Inscription → Miniscript B K → Terminal B K
    inscribe_post : List Inscription → Miniscript B K → Terminal B K
    alt : Miniscript B K → Terminal B K
    swap : Miniscript B K → Terminal B K
    check : Miniscript B K → Terminal B K
    dup_if : Miniscript B K → Terminal B K
    verify : Miniscript B K → Terminal B K
    non_zero : Miniscript B K → Terminal B K
    zero_not_equal : Miniscript B K → Terminal B K
    and_v : Miniscript B K → Miniscript B K → Terminal B K
    and_b : Miniscript B K → Miniscript B K → Terminal B K
    and_or : Miniscript B K → Miniscript B K → Miniscript B K → Terminal B K
    or_b : Miniscript B K → Miniscript B K → Terminal B K
    or_d : Miniscript B K → Miniscript B K → Terminal B K
    or_c : Miniscript B K → Miniscript B K → Terminal B K
    or_i : Miniscript B K → Miniscript B K → Terminal B K
    thresh : ℕ → Subs B K → Terminal B K
    multi : Threshold K.Pk → Terminal B K
    multi_a : Threshold K.Pk → Terminal B K

  pub data Miniscript (B : Bitcoin) (K : MiniscriptKey) : Type 0 where
    miniscript : Terminal B K → Ty → ExtData → Miniscript B K

  -- The children of a `thresh`, whose `k` stands before them.
  pub data Subs (B : Bitcoin) (K : MiniscriptKey) : Type 0 where
    nil : Subs B K
    cons : Miniscript B K → Subs B K → Subs B K

module _ {B : Bitcoin} {K : MiniscriptKey} where
  abbrev pub node : Miniscript B K → Terminal B K
  node (miniscript n t e) = n

  abbrev pub ty : Miniscript B K → Ty
  ty (miniscript n t e) = t

  abbrev pub ext : Miniscript B K → ExtData
  ext (miniscript n t e) = e

  abbrev pub tys : Subs B K → List Ty
  tys nil = []
  tys (cons s ss) = ty s ∷ tys ss

  abbrev pub exts : Subs B K → List ExtData
  exts nil = []
  exts (cons s ss) = ext s ∷ exts ss
