-- ===== src/Descriptor/Checksum.antt =====
-- src/descriptor/checksum.rs: the checksum engine, `verify_checksum` and the formatter. A text is the
-- list of its code points; the finite field and the residue of the bech32 crate are an interface.
pub mod Engines
pub mod Scan
pub mod Verify
pub mod Written
use rust_miniscript.Prelude.{
  ℕ, zero, suc, ◌+◌, ◌-◌, ◌*◌, ◌/◌, ◌%◌, Bool, true, false, not, ◌&&◌, Option, none, some, List, [],
  ◌∷◌, ◌++◌, length, nth, ltb, leb, ◌==◌, Result, ok, err, ◌>>=◌, ◌>>◌, if◌then◌else◌, take, drop,
}

-- `Fe32` and `checksum::Engine<DescriptorChecksum>` of the bech32 crate.
pub record Bech32 : Type 1 where
  pub Fe32 : Type 0
  pub try_from : ℕ → Option Fe32
  pub to_char : Fe32 → ℕ
  pub Residue : Type 0
  pub initial : Residue
  pub input_fe : Residue → Fe32 → Residue
  pub input_target_residue : Residue → Residue
  pub unpack : Residue → ℕ → ℕ

abbrev pub checksum_length : ℕ
checksum_length = 8

-- The map starts at 32 (space) and runs up to 126 (tilde).
abbrev pub char_map : List ℕ
char_map =
    94 ∷ 59 ∷ 92 ∷ 91 ∷ 28 ∷ 29 ∷ 50 ∷ 15 ∷ 10 ∷ 11 ∷ 17 ∷ 51 ∷ 14 ∷ 52 ∷ 53 ∷ 16 ∷ 0 ∷ 1 ∷ 2 ∷ 3
    ∷ 4 ∷ 5 ∷ 6 ∷ 7 ∷ 8 ∷ 9 ∷ 27 ∷ 54 ∷ 55 ∷ 56 ∷ 57 ∷ 58 ∷ 26 ∷ 82 ∷ 83 ∷ 84 ∷ 85 ∷ 86 ∷ 87 ∷ 88
    ∷ 89 ∷ 32 ∷ 33 ∷ 34 ∷ 35 ∷ 36 ∷ 37 ∷ 38 ∷ 39 ∷ 40 ∷ 41 ∷ 42 ∷ 43 ∷ 44 ∷ 45 ∷ 46 ∷ 47 ∷ 48 ∷ 49
    ∷ 12 ∷ 93 ∷ 13 ∷ 60 ∷ 61 ∷ 90 ∷ 18 ∷ 19 ∷ 20 ∷ 21 ∷ 22 ∷ 23 ∷ 24 ∷ 25 ∷ 64 ∷ 65 ∷ 66 ∷ 67 ∷ 68
    ∷ 69 ∷ 70 ∷ 71 ∷ 72 ∷ 73 ∷ 74 ∷ 75 ∷ 76 ∷ 77 ∷ 78 ∷ 79 ∷ 80 ∷ 81 ∷ 30 ∷ 62 ∷ 31 ∷ 63 ∷ []

abbrev pub Text : Type 0
Text = List ℕ

pub data Error : Type 0 where
  invalid_character : ℕ → ℕ → Error
  invalid_checksum_length : ℕ → ℕ → Error
  invalid_checksum : Text → Text → Error

-- An error that the code returns, or a panic.
pub data Fault : Type 0 where
  fails : Error → Fault
  panic : Fault

-- `Option::expect`.
abbrev pub expect {ℓ} : {A : Type ℓ} → Option A → Result Fault A
expect none = err Fault.panic
expect (some a) = ok a

-- `(32..127).contains(&u32::from(ch))`.
abbrev pub is_valid_char : ℕ → Bool
is_valid_char ch = leb 32 ch && ltb ch 127

-- The entry of `CHAR_MAP` for a byte, with its bounds checks.
unfoldable pub char_value : ℕ → Option ℕ
char_value ch = if leb 32 ch then nth (ch - 32) char_map else none

-- The loop that rejects the first character outside of the character set.
unfoldable pub check_chars : ℕ → Text → Result Fault (Unit {0})
check_chars pos [] = ok tt
check_chars pos (ch ∷ s) =
    let rest = check_chars (pos + 1) s in
    if is_valid_char ch then rest else err (Fault.fails (Error.invalid_character ch pos))

-- The loop of `verify_checksum`, which keeps the position of the last `#`.
unfoldable pub find_last_hash : ℕ → ℕ → Text → Result Fault ℕ
find_last_hash pos last_hash_pos [] = ok last_hash_pos
find_last_hash pos last_hash_pos (ch ∷ s) =
    let rest = find_last_hash (pos + 1) (if ch == b'#' then pos else last_hash_pos) s in
    if is_valid_char ch then rest else err (Fault.fails (Error.invalid_character ch pos))

-- `array::from_fn(|_| iter.next().expect(..))`.
unfoldable pub next_chars : ℕ → Text → Result Fault Text
next_chars zero s = ok []
next_chars (suc n) [] = err Fault.panic
next_chars (suc n) (ch ∷ s) = do rest ← next_chars n s; ok (ch ∷ rest)

unfoldable pub same_text : Text → Text → Bool
same_text [] [] = true
same_text (x ∷ xs) (y ∷ ys) = x == y && same_text xs ys
same_text _ _ = false

pub record Engine (B : Bech32) : Type 0 where
  pub inner : B.Residue
  pub cls : ℕ
  pub clscount : ℕ

module _ (B : Bech32) where
  unfoldable pub new : Engine B
  new = record { inner = B.initial; cls = 0; clscount = 0 }

  -- The engine once `cls` is complete.
  unfoldable pub flush : B.Residue → ℕ → Result Fault (Engine B)
  flush inner cls = do
    fe ← expect (B.try_from cls)
    ok (record { inner = B.input_fe inner fe; cls = 0; clscount = 0 })

  -- The body of the loop of `input_unchecked`.
  unfoldable pub input_char : Engine B → ℕ → Result Fault (Engine B)
  unfolding flush char_value
  input_char e ch = do
    pos ← expect (char_value ch)
    fe ← expect (B.try_from (pos % 32))
    let inner = B.input_fe e.inner fe
    let cls = e.cls * 3 + pos / 32
    let clscount = e.clscount + 1
    if clscount == 3
        then flush inner cls
        else ok (record { inner = inner; cls = cls; clscount = clscount })

  unfoldable pub input_unchecked : Engine B → Text → Result Fault (Engine B)
  unfolding input_char
  input_unchecked e [] = ok e
  input_unchecked e (ch ∷ s) = do next ← input_char e ch; input_unchecked next s

  unfoldable pub input : Engine B → Text → Result Fault (Engine B)
  unfolding check_chars input_unchecked
  input e s = do check_chars 0 s; input_unchecked e s

  -- The residue's coefficients below `n`, from the highest down, as characters.
  unfoldable pub residue_chars : B.Residue → ℕ → Result Fault Text
  residue_chars r zero = ok []
  residue_chars r (suc n) = do
    fe ← expect (B.try_from (B.unpack r n))
    rest ← residue_chars r n
    ok (B.to_char fe ∷ rest)

  -- The residue with the pending classes.
  unfoldable pub pending : Engine B → Result Fault B.Residue
  pending e =
      if ltb 0 e.clscount
      then (do fe ← expect (B.try_from e.cls); ok (B.input_fe e.inner fe))
      else ok e.inner

  -- The characters, and the engine that is left.
  unfoldable pub checksum_chars : Engine B → Result Fault (Text × Engine B)
  unfolding pending residue_chars
  checksum_chars e = do
    fed ← pending e
    let inner = B.input_target_residue fed
    chars ← residue_chars inner checksum_length
    ok (chars, record { inner = inner; cls = e.cls; clscount = e.clscount })

  -- The part of `verify_checksum` for a text with a `#`, on what is before and after the last one.
  unfoldable pub verify_parts : Text → Text → Result Fault (Unit {0})
  unfolding input_unchecked new checksum_chars next_chars same_text
  verify_parts payload checksum_str = do
    if length checksum_str == checksum_length
        then ok tt
        else err (Fault.fails (Error.invalid_checksum_length (length checksum_str) checksum_length))
    eng ← input_unchecked new payload
    expected ← checksum_chars eng
    actual ← next_chars checksum_length checksum_str
    if same_text expected.0 actual
        then ok tt
        else err (Fault.fails (Error.invalid_checksum actual expected.0))

  unfoldable pub verify_checksum : Text → Result Fault Text
  unfolding find_last_hash verify_parts
  verify_checksum s = do
    last_hash_pos ← find_last_hash 0 (length s) s
    if ltb last_hash_pos (length s)
        then verify_parts (take last_hash_pos s) (drop (suc last_hash_pos) s)
        else ok tt
    ok (take last_hash_pos s)

-- `Formatter`: what has been written, the flag of `alternate`, and the engine.
pub record Formatter (B : Bech32) : Type 0 where
  pub written : Text
  pub alternate : Bool
  pub eng : Engine B

module _ (B : Bech32) where
  unfoldable pub formatter : Bool → Formatter B
  unfolding new
  formatter alternate = record { written = []; alternate = alternate; eng = new B }

  unfoldable pub write_str : Formatter B → Text → Result Fault (Formatter B)
  unfolding input
  write_str f s = do
    eng ← input B f.eng s
    ok (record { written = f.written ++ s; alternate = f.alternate; eng = eng })

  unfoldable pub write_checksum : Formatter B → Result Fault (Formatter B)
  unfolding checksum_chars
  write_checksum f = do
    sum ← checksum_chars B f.eng
    ok (record { written = f.written ++ (b'#' ∷ sum.0); alternate = f.alternate; eng = sum.1 })

  unfoldable pub write_checksum_if_not_alt : Formatter B → Result Fault (Formatter B)
  unfolding write_checksum
  write_checksum_if_not_alt f =
      let summed = write_checksum f in if f.alternate then ok f else summed
