-- ===== src/Ext/Leaves.antt =====
-- The leaf fragments of src/miniscript/types/extra_props.rs. What a leaf reads of its key or lock
-- is an argument: whether the key is uncompressed, and the number and the kind of the lock.
use rust_miniscript.Prelude.{
  ℕ, ◌+◌, ◌-◌, ◌*◌, Bool, true, false, Option, none, some, List, [], ◌∷◌, ltb, if◌then◌else◌,
}
use rust_miniscript.Ext.Timelock.{new}
use rust_miniscript.Ext.Data.{ExtData, sat, script_num_size}

-- src/miniscript/context.rs.
pub data SigType : Type 0 where
  ecdsa schnorr : SigType

-- `key_bytes` of `pk_k` and of `pk_h` with a key.
abbrev pub key_bytes : SigType → Bool → ℕ
key_bytes SigType.ecdsa true = 65
key_bytes SigType.ecdsa false = 34
key_bytes SigType.schnorr _ = 33

abbrev pub max_sig_bytes : SigType → ℕ
max_sig_bytes SigType.ecdsa = 73
max_sig_bytes SigType.schnorr = 66

unfoldable pub pk_k : SigType → Bool → ExtData
pk_k s uncompressed = record {
  pk_cost = key_bytes s uncompressed;
  has_free_verify = false;
  static_ops = 0;
  sat_data = some (sat (max_sig_bytes s) 1 (max_sig_bytes s) 1 0);
  dissat_data = some (sat 1 1 1 1 0);
  timelock_info = new;
  tree_height = 0;
}

-- Without a key the size of a compressed one is taken.
abbrev pub pkh_bytes : SigType → Option Bool → ℕ
pkh_bytes s none = key_bytes s false
pkh_bytes s (some uncompressed) = key_bytes s uncompressed

unfoldable pub pk_h : SigType → Option Bool → ExtData
pk_h s pk = record {
  pk_cost = 24;
  has_free_verify = false;
  static_ops = 3;
  sat_data = some (sat (pkh_bytes s pk + max_sig_bytes s) 2 (pkh_bytes s pk + max_sig_bytes s) 2 0);
  dissat_data = some (sat (pkh_bytes s pk + 1) 2 (pkh_bytes s pk + 1) 2 0);
  timelock_info = new;
  tree_height = 0;
}

-- `num_cost`, over `(k > 16, n > 16)`.
abbrev pub num_cost : Bool → Bool → ℕ
num_cost true true = 4
num_cost false true = 3
num_cost true false = 3
num_cost false false = 2

-- The sum over the keys of a `multi`, given which are uncompressed.
unfoldable pub multi_keys : List Bool → ℕ
multi_keys [] = 0
multi_keys (uncompressed ∷ keys) = (if uncompressed then 65 else 34) + multi_keys keys

unfoldable pub multi : ℕ → ℕ → List Bool → ExtData
unfolding multi_keys
multi k n keys = record {
  pk_cost = num_cost (ltb 16 k) (ltb 16 n) + multi_keys keys + 1;
  has_free_verify = true;
  static_ops = 1;
  sat_data = some (sat (1 + 73 * k) (k + 1) (1 + 73 * k) n n);
  dissat_data = some (sat (1 + k) (k + 1) (1 + k) n n);
  timelock_info = new;
  tree_height = 0;
}

unfoldable pub multi_a : ℕ → ℕ → ExtData
multi_a k n = record {
  pk_cost = num_cost (ltb 16 k) (ltb 16 n) + 33 * n + (n - 1) + 1;
  has_free_verify = true;
  static_ops = 0;
  sat_data = some (sat ((n - k) + 66 * k) n 0 2 0);
  dissat_data = some (sat n n 0 2 0);
  timelock_info = new;
  tree_height = 0;
}

abbrev pub sha256 : ExtData
sha256 = record {
  pk_cost = 33 + 6;
  has_free_verify = true;
  static_ops = 4;
  sat_data = some (sat 33 1 33 2 0);
  dissat_data = some (sat 33 2 33 2 0);
  timelock_info = new;
  tree_height = 0;
}

abbrev pub hash256 : ExtData
hash256 = record {
  pk_cost = 33 + 6;
  has_free_verify = true;
  static_ops = 4;
  sat_data = some (sat 33 1 33 2 0);
  dissat_data = some (sat 33 2 33 2 0);
  timelock_info = new;
  tree_height = 0;
}

abbrev pub ripemd160 : ExtData
ripemd160 = record {
  pk_cost = 21 + 6;
  has_free_verify = true;
  static_ops = 4;
  sat_data = some (sat 33 1 33 2 0);
  dissat_data = some (sat 33 2 33 2 0);
  timelock_info = new;
  tree_height = 0;
}

abbrev pub hash160 : ExtData
hash160 = record {
  pk_cost = 21 + 6;
  has_free_verify = true;
  static_ops = 4;
  sat_data = some (sat 33 1 33 2 0);
  dissat_data = some (sat 33 2 33 2 0);
  timelock_info = new;
  tree_height = 0;
}

-- `after(t)`: `t` as a number, and whether it is a height or a time.
unfoldable pub after : ℕ → Bool → Bool → ExtData
after t is_height is_time = record {
  pk_cost = script_num_size t + 1;
  has_free_verify = false;
  static_ops = 1;
  sat_data = some (sat 0 0 0 1 0);
  dissat_data = none;
  timelock_info = record {
    csv_with_height = false;
    csv_with_time = false;
    cltv_with_height = is_height;
    cltv_with_time = is_time;
    contains_combination = false;
  };
  tree_height = 0;
}

unfoldable pub older : ℕ → Bool → Bool → ExtData
older t is_height is_time = record {
  pk_cost = script_num_size t + 1;
  has_free_verify = false;
  static_ops = 1;
  sat_data = some (sat 0 0 0 1 0);
  dissat_data = none;
  timelock_info = record {
    csv_with_height = is_height;
    csv_with_time = is_time;
    cltv_with_height = false;
    cltv_with_time = false;
    contains_combination = false;
  };
  tree_height = 0;
}
