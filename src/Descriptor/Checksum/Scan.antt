-- ===== src/Descriptor/Checksum/Scan.antt =====
-- The loops over characters of src/descriptor/checksum.rs: the first invalid character of a text, and its
-- last `#`.
use rust_miniscript.Prelude.{
  ℕ, zero, suc, ◌+◌, true, false, [], ◌∷◌, ◌++◌, length, ◌==◌, ok, err, if◌then◌else◌, ◌≡◌, refl,
  sym, ap, ap₂, subst, ◌∙◌, ◌≢◌, inl, inr, All, Bool-cases, arith, ==_iff,
}
use rust_miniscript.Descriptor.Checksum.{
  Text, Error, Fault, is_valid_char, check_chars, find_last_hash, next_chars, same_text,
}
use rust_miniscript.Descriptor.Checksum.Engines.{AllValid}

abbrev pub NoHash : Text → Type 0
NoHash s = All (λ ch. (ch == b'#') ≡ false) s

-- The first character that is not valid, if there is one.
pub data Scanned : Text → Type 0 where
  all_valid : {t : Text} → AllValid t → Scanned t
  first_invalid :
      (pre : Text) (ch : ℕ) (post : Text)
      → AllValid pre
      → is_valid_char ch ≡ false
      → Scanned (pre ++ ch ∷ post)

pub scan_step : {t : Text} (x : ℕ) → is_valid_char x ≡ true → Scanned t → Scanned (x ∷ t)
scan_step x good (Scanned.all_valid rest) = Scanned.all_valid (good, rest)
scan_step x good (Scanned.first_invalid pre bad post valid h) =
    Scanned.first_invalid (x ∷ pre) bad post (good, valid) h

pub scanned : (t : Text) → Scanned t
scanned [] = Scanned.all_valid tt
scanned (x ∷ t) = elim (Bool-cases (is_valid_char x)) [
  | inl good ↦ scan_step x good (scanned t)
  | inr bad ↦ Scanned.first_invalid [] x t tt bad
]

-- The last `#`, if there is one.
pub data Parted : Text → Type 0 where
  whole : {t : Text} → NoHash t → Parted t
  parts : (s c : Text) → NoHash c → Parted (s ++ b'#' ∷ c)

pub part_step : {t : Text} (x : ℕ) → Parted t → Parted (x ∷ t)
part_step x (Parted.parts s c h) = Parted.parts (x ∷ s) c h
part_step {t} x (Parted.whole h) = elim (Bool-cases (x == b'#')) [
  | inl hash ↦ subst (λ y. Parted (y ∷ t)) (sym ((==_iff x b'#').0 hash)) (Parted.parts [] t h)
  | inr other ↦ Parted.whole (other, h)
]

pub parted : (t : Text) → Parted t
parted [] = Parted.whole tt
parted (x ∷ t) = part_step x (parted t)

pub find_last_hash-invalid :
    (pos last : ℕ) (pre : Text) (ch : ℕ) (post : Text)
    → AllValid pre
    → is_valid_char ch ≡ false
    → find_last_hash pos last (pre ++ ch ∷ post)
      ≡ err (Fault.fails (Error.invalid_character ch (pos + length pre)))
unfolding find_last_hash
find_last_hash-invalid pos last [] ch post h bad =
    rw bad (ap (λ n. err (Fault.fails (Error.invalid_character ch n))) (omega arith))
find_last_hash-invalid pos last (x ∷ pre) ch post h bad = rw h.0 (
    find_last_hash-invalid (pos + 1) (if x == b'#' then pos else last) pre ch post h.1 bad
    ∙ ap (λ n. err (Fault.fails (Error.invalid_character ch n))) (omega arith))

pub find_last_hash-whole :
    (pos last : ℕ) (t : Text) → AllValid t → NoHash t → find_last_hash pos last t ≡ ok last
unfolding find_last_hash
find_last_hash-whole pos last [] h k = refl
find_last_hash-whole pos last (x ∷ t) h k =
    rw (h.0, k.0) (find_last_hash-whole (pos + 1) last t h.1 k.1)

pub find_last_hash-parts :
    (pos last : ℕ) (s c : Text)
    → AllValid s
    → AllValid c
    → NoHash c
    → find_last_hash pos last (s ++ b'#' ∷ c) ≡ ok (pos + length s)
unfolding find_last_hash
find_last_hash-parts pos last [] c h k p =
    find_last_hash-whole (pos + 1) pos c k p ∙ ap ok (omega arith)
find_last_hash-parts pos last (x ∷ s) c h k p = rw h.0 (
    find_last_hash-parts (pos + 1) (if x == b'#' then pos else last) s c h.1 k p
    ∙ ap ok (omega arith))

pub next_chars-all : (n : ℕ) (s : Text) → length s ≡ n → next_chars n s ≡ ok s
unfolding next_chars
next_chars-all zero [] h = refl
next_chars-all zero (x ∷ s) h = ground (arith, h)
next_chars-all (suc n) [] h = ground (arith, h)
next_chars-all (suc n) (x ∷ s) h = rw (next_chars-all n s (omega (arith, h))) refl

pub same_text_refl : (s : Text) → same_text s s ≡ true
unfolding same_text
same_text_refl [] = refl
same_text_refl (x ∷ s) = rw ((==_iff x x).1 refl) (same_text_refl s)

pub differ : (s t : Text) → same_text s t ≡ false → t ≢ s
differ s t h e = cc (h, subst (λ u. same_text s u ≡ true) (sym e) (same_text_refl s))

pub same_text_sound : (s t : Text) → same_text s t ≡ true → s ≡ t
unfolding same_text
same_text_sound [] [] h = refl
same_text_sound [] (y ∷ t) h = cc
same_text_sound (x ∷ s) [] h = cc
same_text_sound (x ∷ s) (y ∷ t) h = elim (Bool-cases (x == y)) [
  | inl same ↦ ap₂ (λ u v. u ∷ v) ((==_iff x y).0 same) (same_text_sound s t (rw same at h))
  | inr other ↦ cc
]

pub check_chars-valid : (pos : ℕ) (s : Text) → AllValid s → check_chars pos s ≡ ok tt
unfolding check_chars
check_chars-valid pos [] h = refl
check_chars-valid pos (x ∷ s) h = rw h.0 (check_chars-valid (pos + 1) s h.1)
