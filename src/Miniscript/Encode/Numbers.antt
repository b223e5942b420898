-- ===== src/Miniscript/Encode/Numbers.antt =====
-- `script_num_size` of src/lib.rs against the bytes of a number in Script.
use rust_miniscript.Prelude.{ℕ, ◌<◌, ◌≡◌, arith}
use rust_miniscript.Ext.Data.{script_num_size}
use rust_miniscript.Miniscript.Encode.{number_bytes, pushed_len}

-- Up to five bytes, `script_num_size` is the length of the push of the number.
pub script_num_size-pushed_len : (n : ℕ) → n < 0x8000000000 → script_num_size n ≡ pushed_len n
unfolding script_num_size pushed_len number_bytes
script_num_size-pushed_len n h = ground arith
