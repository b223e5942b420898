-- ===== src/Descriptor/Checksum/Engines.antt =====
-- The state of the checksum engine of src/descriptor/checksum.rs, and what its operations return.
use rust_miniscript.Prelude.{
  ℕ, zero, suc, ◌+◌, ◌-◌, ◌*◌, ◌/◌, ◌%◌, ◌<◌, ◌≤◌, Bool, true, false, ◌&&◌, some, List, [], ◌∷◌,
  length, ltb, ◌==◌, ok, if◌then◌else◌, ◌≡◌, refl, ap, ◌⊎◌, inl, inr, All, nth-All, Bool-cases,
  arith, ltb_iff, leb_iff,
}
use rust_miniscript.Descriptor.Checksum.{
  Bech32, Text, is_valid_char, char_map, char_value, Engine, new, flush, input_char,
  input_unchecked, residue_chars, pending, checksum_chars, checksum_length,
}

-- What the bech32 crate documents: a value below 32 is a field element, coefficients are 5 bits wide,
-- and the characters of field elements are letters and digits.
pub record Bech32Laws (B : Bech32) : Type 0 where
  pub try_from-some : (n : ℕ) → n < 32 → (fe : B.Fe32) × (B.try_from n ≡ some fe)
  pub unpack-lt : (r : B.Residue) (n : ℕ) → B.unpack r n < 32
  pub to_char_valid : (fe : B.Fe32) → is_valid_char (B.to_char fe) ≡ true
  pub to_char_no_hash : (fe : B.Fe32) → (B.to_char fe == b'#') ≡ false

abbrev pub AllValid : Text → Type 0
AllValid s = All (λ ch. is_valid_char ch ≡ true) s

abbrev all_lt : ℕ → List ℕ → Bool
all_lt n [] = true
all_lt n (x ∷ xs) = ltb x n && all_lt n xs

all_lt-All : (n : ℕ) (xs : List ℕ) → all_lt n xs ≡ true → All (λ x. x < n) xs
all_lt-All n [] h = tt
all_lt-All n (x ∷ xs) h = elim (Bool-cases (ltb x n)) [
  | inl lt ↦ ((ltb_iff x n).0 lt, all_lt-All n xs (rw lt at h))
  | inr ge ↦ cc
]

valid-range : (ch : ℕ) → is_valid_char ch ≡ true → (32 ≤ ch) × (ch < 127)
valid-range ch h = ground (arith, h)

pub char_value-some :
    (ch : ℕ) → is_valid_char ch ≡ true → (p : ℕ) × (char_value ch ≡ some p) × (p < 95)
unfolding char_value
char_value-some ch h =
    let (low, high) = valid-range ch h in
    let found =
      nth-All (λ x. x < 95) char_map (ch - 32) (all_lt-All 95 char_map refl)
        (omega (arith, low, high)) in
    (found.0, rw ((leb_iff 32 ch).1 low) found.1, found.2)

module _ {B : Bech32} where
  -- The pending classes are few enough for one field element.
  abbrev pub IsReady : Engine B → Type 0
  IsReady e =
      ((e.clscount ≡ 0) × (e.cls < 1))
      ⊎ ((e.clscount ≡ 1) × (e.cls < 3))
      ⊎ ((e.clscount ≡ 2) × (e.cls < 9))

pub new-IsReady : (B : Bech32) → IsReady (new B)
unfolding new
new-IsReady B = inl (refl, omega arith)

module _ {B : Bech32} (L : Bech32Laws B) where
  flush-total :
      (inner : B.Residue) (cls : ℕ)
      → cls < 32
      → (e : Engine B) × (flush B inner cls ≡ ok e) × IsReady e
  unfolding flush
  flush-total inner cls b =
      let (fe, found) = L.try_from-some cls b in
      (
        record { inner = B.input_fe inner fe; cls = 0; clscount = 0 },
        rw found refl,
        inl (refl, omega arith),
      )

  -- The engine after one more class, by the number of those before it.
  next_class :
      (e : Engine B) (inner : B.Residue) (q : ℕ)
      → IsReady e
      → q ≤ 2
      → (next : Engine B) × ((if e.clscount + 1 == 3
            then flush B inner (e.cls * 3 + q)
            else ok (record { inner = inner; cls = e.cls * 3 + q; clscount = e.clscount + 1 }))
          ≡ ok next)
        × IsReady next
  next_class e inner q (inl (c, b)) small = (
    record { inner = inner; cls = e.cls * 3 + q; clscount = e.clscount + 1 },
    rw c refl,
    inr (inl (omega (arith, c), omega (arith, b, small))),
  )
  next_class e inner q (inr (inl (c, b))) small = (
    record { inner = inner; cls = e.cls * 3 + q; clscount = e.clscount + 1 },
    rw c refl,
    inr (inr (omega (arith, c), omega (arith, b, small))),
  )
  next_class e inner q (inr (inr (c, b))) small =
      let full = flush-total inner (e.cls * 3 + q) (omega (arith, b, small)) in
      (full.0, rw c full.1, full.2)

  input_char-total :
      (e : Engine B) (ch : ℕ)
      → IsReady e
      → is_valid_char ch ≡ true
      → (next : Engine B) × (input_char B e ch ≡ ok next) × IsReady next
  unfolding input_char
  input_char-total e ch ready h =
      let (p, found, b) = char_value-some ch h in
      let (fe, made) = L.try_from-some (p % 32) (omega arith) in
      let next = next_class e (B.input_fe e.inner fe) (p / 32) ready (omega (arith, b)) in
      (next.0, rw (found, made) next.1, next.2)

  pub input_unchecked-total :
      (e : Engine B) (s : Text)
      → IsReady e
      → AllValid s
      → (next : Engine B) × (input_unchecked B e s ≡ ok next) × IsReady next
  unfolding input_unchecked
  input_unchecked-total e [] ready h = (e, refl, ready)
  input_unchecked-total e (ch ∷ s) ready h =
      let (mid, first, again) = input_char-total e ch ready h.0 in
      let (next, rest, done) = input_unchecked-total mid s again h.1 in (next, rw first rest, done)

  residue_chars-total :
      (r : B.Residue) (n : ℕ)
      → (chars : Text) × (residue_chars B r n ≡ ok chars)
        × (length chars ≡ n)
        × AllValid chars
        × All (λ ch. (ch == b'#') ≡ false) chars
  unfolding residue_chars
  residue_chars-total r zero = ([], refl, refl, tt, tt)
  residue_chars-total r (suc n) =
      let (fe, made) = L.try_from-some (B.unpack r n) (L.unpack-lt r n) in
      let (chars, rest, len, valid, plain) = residue_chars-total r n in
      (
        B.to_char fe ∷ chars,
        rw (made, rest) refl,
        ap suc len,
        (L.to_char_valid fe, valid),
        (L.to_char_no_hash fe, plain),
      )

  pending-total : (e : Engine B) → IsReady e → (r : B.Residue) × (pending B e ≡ ok r)
  unfolding pending
  pending-total e ready =
      let (fe, made) = L.try_from-some e.cls (ground (arith, ready)) in
      elim (Bool-cases (ltb 0 e.clscount)) [
        | inl more ↦ (B.input_fe e.inner fe, rw (more, made) refl)
        | inr done ↦ (e.inner, rw done refl)
      ]

  pub checksum_chars-total :
      (e : Engine B)
      → IsReady e
      → (chars : Text) × (left : Engine B) × (checksum_chars B e ≡ ok (chars, left))
        × (length chars ≡ checksum_length)
        × AllValid chars
        × All (λ ch. (ch == b'#') ≡ false) chars
  unfolding checksum_chars
  checksum_chars-total e ready =
      let (fed, pended) = pending-total e ready in
      let inner = B.input_target_residue fed in
      let (chars, made, len, valid, plain) = residue_chars-total inner checksum_length in
      (
        chars,
        record { inner = inner; cls = e.cls; clscount = e.clscount },
        rw (pended, made) refl,
        len,
        valid,
        plain,
      )
