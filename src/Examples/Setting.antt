-- ===== src/Examples/Setting.antt =====
-- A concrete bitcoin crate and key type: lock times and keys are numbers, and a key from 100 on is
-- uncompressed.
use rust_miniscript.Prelude.{ℕ, ◌^◌, false, ltb, leb, ◌==◌, ◌&&◌}
use rust_miniscript.Primitives.Locktime.{Bitcoin}
use rust_miniscript.Miniscript.Ast.{MiniscriptKey, Inscription}

abbrev pub numbers : Bitcoin
numbers = record {
  LockTime = ℕ;
  lock_from_consensus = λ n. n;
  lock_to_consensus_u32 = λ n. n;
  is_block_height = λ n. ltb n 500000000;
  is_block_time = λ n. leb 500000000 n;
  Sequence = ℕ;
  sequence_from_consensus = λ n. n;
  sequence_to_consensus_u32 = λ n. n;
  is_relative_lock_time = λ n. ltb n (2 ^ 31);
  is_zero = λ n. n == 0;
  is_height_locked = λ n. ltb n (2 ^ 22);
  is_time_locked = λ n. leb (2 ^ 22) n && ltb n (2 ^ 23);
  max_script_element_size = 520;
  max_block_weight = 4000000;
}

abbrev pub key_numbers : MiniscriptKey
key_numbers = record {
  Pk = ℕ;
  is_uncompressed = λ pk. leb 100 pk;
  is_x_only_key = λ pk. false;
  Sha256 = ℕ;
  Hash256 = ℕ;
  Ripemd160 = ℕ;
  Hash160 = ℕ;
}

-- A length for each envelope.
abbrev pub envelope_size : Inscription → ℕ
envelope_size i = 40
