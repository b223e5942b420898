-- ===== src/Examples/Checksums.antt =====
-- The checksum of src/descriptor/checksum.rs over a small residue, and the theorems at a text.
use rust_miniscript.Prelude.{
  ℕ, ◌+◌, ◌*◌, ◌/◌, ◌%◌, ◌^◌, true, false, [], ◌∷◌, ◌++◌, some, none, ltb, ltb_iff, ◌==◌,
  if◌then◌else◌, ok, ◌>>=◌, ◌≡◌, refl, ◌⊎◌, arith,
}
use rust_miniscript.Descriptor.Checksum.{
  Bech32, Text, Formatter, formatter, write_checksum_if_not_alt, verify_checksum, is_valid_char,
}
use rust_miniscript.Descriptor.Checksum.Engines.{Bech32Laws, AllValid}
use rust_miniscript.Descriptor.Checksum.Scan.{NoHash}
use rust_miniscript.Descriptor.Checksum.Verify.{
  HasChecksum, verify_checksum-checksum_chars, verify_checksum_sound,
}
use rust_miniscript.Descriptor.Checksum.Written.{
  concat, write_all, verify_checksum-write_checksum_if_not_alt,
}

-- Letters and two of the digits.
abbrev digit : ℕ → ℕ
digit n = if ltb n 26 then b'a' + n else b'0'

-- A residue of 40 bits, which shifts by 5 bits for each field element.
abbrev shifting : Bech32
shifting = record {
  Fe32 = ℕ;
  try_from = λ n. if ltb n 32 then some n else none;
  to_char = digit;
  Residue = ℕ;
  initial = 1;
  input_fe = λ r fe. (r * 33 + fe) % 2 ^ 40;
  input_target_residue = λ r. r + 1;
  unpack = λ r n. r / 32 ^ n % 32;
}

digit_valid : (n : ℕ) → is_valid_char (digit n) ≡ true
digit_valid n = ground arith

digit_no_hash : (n : ℕ) → (digit n == b'#') ≡ false
digit_no_hash n = ground arith

abbrev shifting_laws : Bech32Laws shifting
shifting_laws = record {
  try_from-some = λ n h. (n, rw ((ltb_iff n 32).1 h) refl);
  unpack-lt = λ r n. omega arith;
  to_char_valid = digit_valid;
  to_char_no_hash = digit_no_hash;
}

-- `pk(a)`.
abbrev descriptor : Text
descriptor = b'p' ∷ b'k' ∷ b'(' ∷ b'a' ∷ b')' ∷ []

descriptor_valid : AllValid descriptor
descriptor_valid = (refl, (refl, (refl, (refl, (refl, tt)))))

verify_checksum-checksum_chars_example :
    (sum : Text) × HasChecksum shifting descriptor sum
    × (verify_checksum shifting (descriptor ++ b'#' ∷ sum) ≡ ok descriptor)
verify_checksum-checksum_chars_example =
    verify_checksum-checksum_chars shifting shifting_laws descriptor descriptor_valid

verify_checksum_sound_example :
    ((descriptor ≡ descriptor) × NoHash descriptor)
    ⊎ ((sum : Text) × HasChecksum shifting descriptor sum × (descriptor ≡ descriptor ++ b'#' ∷ sum))
unfolding verify_checksum
verify_checksum_sound_example =
    verify_checksum_sound shifting shifting_laws descriptor descriptor refl

verify_checksum-write_checksum_if_not_alt_example :
    (f : Formatter shifting) × ((do
      all ← write_all (formatter shifting false) (descriptor ∷ descriptor ∷ [])
      write_checksum_if_not_alt shifting all)
      ≡ ok f)
    × (false ≡ true → f.written ≡ concat (descriptor ∷ descriptor ∷ []))
    × (false ≡ false
        → verify_checksum shifting f.written ≡ ok (concat (descriptor ∷ descriptor ∷ [])))
verify_checksum-write_checksum_if_not_alt_example =
    verify_checksum-write_checksum_if_not_alt shifting_laws false (descriptor ∷ descriptor ∷ [])
      (descriptor_valid, (descriptor_valid, tt))
