-- ===== src/Examples/Encoding.antt =====
-- A script builder that keeps the length of the script and whether its end has a form with `VERIFY`,
-- and the theorems on encoding at it.
use rust_miniscript.Prelude.{
  ℕ, zero, suc, arith, ◌+◌, ◌≤◌, ◌≡◌, refl, Bool, false, not, [], ◌∷◌, length, from_bool,
  if◌then◌else◌,
}
use rust_miniscript.Miniscript.Ast.{Bytes, ext}
use rust_miniscript.Miniscript.Context.{Context}
use rust_miniscript.Miniscript.Build.{Everywhere}
use rust_miniscript.Miniscript.Build.Size.{script_size}
use rust_miniscript.Miniscript.Encode.{
  ScriptBuilder, ToPublicKey, BuilderLaws, pushed_len, has_verify_form, encode,
}
use rust_miniscript.Miniscript.Encode.Size.{
  HasHashLengths, HasSmallNumbers, encode-script_size, encode-has_free_verify,
}
use rust_miniscript.Miniscript.Encode.Limits.{encode-size_limit, encode-size_limit_compressed}
use rust_miniscript.Miniscript.Build.Size.Limits.{size_limit, segwitv0}
use rust_miniscript.Miniscript.Build.Size.Cost.{uncompressed, wide}
use rust_miniscript.Examples.Setting.{numbers, key_numbers, envelope_size}
use rust_miniscript.Examples.Scripts.{
  two_of_three, two_of_three-IsBuilt, timed, timed-IsBuilt_segwit,
}

record Written : Type 0 where
  pub len : ℕ
  pub ends : Bool

abbrev key_len : Bool → ℕ
key_len uncompressed = if uncompressed then 66 else 34

abbrev builder : ScriptBuilder
builder = record {
  Builder = Written;
  PublicKey = Bool;
  push_opcode = λ b o. record { len = b.len + 1; ends = has_verify_form o };
  push_int = λ b n. record { len = b.len + pushed_len n; ends = false };
  push_slice = λ b s. record { len = b.len + 1 + length s; ends = false };
  push_key = λ b uncompressed. record { len = b.len + key_len uncompressed; ends = false };
  push_verify = λ b. record { len = b.len + from_bool (not b.ends); ends = false };
  append_reveal_script_to_builder = λ i b. record { len = b.len + envelope_size i; ends = false };
}

abbrev zeros : ℕ → Bytes
zeros zero = []
zeros (suc n) = 0 ∷ zeros n

abbrev public : ToPublicKey builder key_numbers
public = record {
  to_public_key = key_numbers.is_uncompressed;
  to_x_only_pubkey = λ pk. zeros 32;
  pubkey_hash = λ s pk. zeros 20;
  to_sha256 = λ h. zeros 32;
  to_hash256 = λ h. zeros 32;
  to_ripemd160 = λ h. zeros 20;
  to_hash160 = λ h. zeros 20;
}

laws : BuilderLaws builder public envelope_size
laws = record {
  len = λ b. b.len;
  ends = λ b. b.ends;
  len-opcode = λ b o. refl;
  ends-opcode = λ b o. refl;
  len-int = λ b n h. refl;
  len-slice = λ b s h. refl;
  ends-slice = λ b s. refl;
  len-key = λ b pk. refl;
  ends-key = λ b pk. refl;
  len-verify = λ b. refl;
  ends-verify = λ b. refl;
  len-envelope = λ b i. refl;
  ends-envelope = λ b i. refl;
  length-x_only = λ pk. refl;
  length-pubkey_hash = λ s pk. refl;
  length-sha256 = λ h. refl;
  length-hash256 = λ h. refl;
  length-ripemd160 = λ h. refl;
  length-hash160 = λ h. refl;
}

abbrev empty : Written
empty = record { len = 0; ends = false }

two_of_three_lengths : Everywhere HasHashLengths two_of_three
unfolding two_of_three
two_of_three_lengths = (
  tt,
  (omega arith, omega arith, ((tt, (tt, tt)), ((tt, (tt, (tt, tt))), ((tt, (tt, (tt, tt))), tt)))),
)

two_of_three_numbers : Everywhere HasSmallNumbers two_of_three
unfolding two_of_three
two_of_three_numbers = (
  omega arith,
  (omega arith, omega arith, ((tt, (tt, tt)), ((tt, (tt, (tt, tt))), ((tt, (tt, (tt, tt))), tt)))),
)

timed_lengths : Everywhere HasHashLengths timed
unfolding timed
timed_lengths = (tt, ((tt, ((tt, (tt, tt)))), (tt, tt)))

timed_numbers : Everywhere HasSmallNumbers timed
unfolding timed
timed_numbers = (tt, ((tt, ((tt, (tt, tt)))), (omega arith, tt)))

encode-script_size_example :
    laws.len (encode numbers builder public Context.legacy empty two_of_three)
    ≡ laws.len empty + script_size envelope_size Context.legacy two_of_three
encode-script_size_example =
    encode-script_size numbers builder public envelope_size laws Context.legacy two_of_three
      two_of_three-IsBuilt two_of_three_lengths two_of_three_numbers empty

encode-has_free_verify_example :
    laws.ends (encode numbers builder public Context.legacy empty two_of_three)
    ≡ (ext two_of_three).has_free_verify
encode-has_free_verify_example =
    encode-has_free_verify numbers builder public envelope_size laws Context.legacy two_of_three
      two_of_three-IsBuilt two_of_three_lengths empty

encode-size_limit_example :
    laws.len (encode numbers builder public Context.legacy empty two_of_three) + wide two_of_three
    ≤ laws.len empty + size_limit numbers Context.legacy + uncompressed two_of_three
encode-size_limit_example =
    encode-size_limit numbers builder public envelope_size laws Context.legacy two_of_three
      two_of_three-IsBuilt two_of_three_lengths two_of_three_numbers empty

encode-size_limit_compressed_example :
    laws.len (encode numbers builder public Context.segwitv0 empty timed)
    ≤ laws.len empty + size_limit numbers Context.segwitv0
encode-size_limit_compressed_example =
    encode-size_limit_compressed numbers builder public envelope_size laws Context.segwitv0 timed
      segwitv0 timed-IsBuilt_segwit timed_lengths timed_numbers empty
