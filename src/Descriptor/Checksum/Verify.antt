-- ===== src/Descriptor/Checksum/Verify.antt =====
-- What `verify_checksum` of src/descriptor/checksum.rs answers on every text.
use rust_miniscript.Prelude.{
  ℕ, ◌+◌, true, false, ◌∷◌, ◌++◌, length, length-append, ◌==◌, Result, ok, err, ◌>>◌, if◌then◌else◌,
  ◌≡◌, refl, ap, subst, ◌∙◌, ◌⊎◌, ◌≢◌, inl, inr, append-All, Bool-cases, arith, ltb_iff,
  ltb_irreflexive, ok_unique, ==_iff, take_append, take_all, drop_append,
}
use rust_miniscript.Descriptor.Checksum.{
  Bech32, Text, Error, Fault, is_valid_char, same_text, Engine, new, input, checksum_chars,
  checksum_length, verify_parts, verify_checksum,
}
use rust_miniscript.Descriptor.Checksum.Engines.{
  Bech32Laws, AllValid, new-IsReady, input_unchecked-total, checksum_chars-total,
}
use rust_miniscript.Descriptor.Checksum.Scan.{
  find_last_hash-invalid, check_chars-valid, differ, Parted, NoHash, Scanned, scanned, parted,
  find_last_hash-whole, find_last_hash-parts, next_chars-all, same_text_refl, same_text_sound,
}

-- The engine `eng` has taken in `s`, and `sum` are the characters of its checksum.
abbrev pub HasChecksum : (B : Bech32) → Text → Text → Type 0
HasChecksum B s sum =
    (eng : Engine B) × (left : Engine B) × (input B (new B) s ≡ ok eng)
    × (checksum_chars B eng ≡ ok (sum, left))

-- The five answers, each with the texts that it is given on.
pub data Answer (B : Bech32) : Text → Result Fault Text → Type 0 where
  invalid_character :
      (pre : Text) (ch : ℕ) (post : Text)
      → AllValid pre
      → is_valid_char ch ≡ false
      → Answer B (pre ++ ch ∷ post) (err (Fault.fails (Error.invalid_character ch (length pre))))
  no_checksum : (s : Text) → AllValid s → NoHash s → Answer B s (ok s)
  invalid_length :
      (s c : Text)
      → NoHash c
      → length c ≢ checksum_length
      → Answer B
          (s ++ b'#' ∷ c)
          (err (Fault.fails (Error.invalid_checksum_length (length c) checksum_length)))
  wrong_checksum :
      (s actual expected : Text)
      → HasChecksum B s expected
      → actual ≢ expected
      → Answer B (s ++ b'#' ∷ actual) (err (Fault.fails (Error.invalid_checksum actual expected)))
  right_checksum : (s sum : Text) → HasChecksum B s sum → Answer B (s ++ b'#' ∷ sum) (ok s)

plus_left_zero : (n : ℕ) → 0 + n ≡ n
plus_left_zero n = omega arith

module _ (B : Bech32) where
  verify_checksum-invalid :
      (pre : Text) (ch : ℕ) (post : Text)
      → AllValid pre
      → is_valid_char ch ≡ false
      → verify_checksum B (pre ++ ch ∷ post)
        ≡ err (Fault.fails (Error.invalid_character ch (length pre)))
  unfolding verify_checksum
  verify_checksum-invalid pre ch post h bad =
      rw (find_last_hash-invalid 0 (length (pre ++ ch ∷ post)) pre ch post h bad)
        (ap (λ n. err (Fault.fails (Error.invalid_character ch n))) (omega arith))

  verify_checksum-whole : (s : Text) → AllValid s → NoHash s → verify_checksum B s ≡ ok s
  unfolding verify_checksum
  verify_checksum-whole s h k =
      rw (find_last_hash-whole 0 (length s) s h k, ltb_irreflexive (length s), take_all s) refl

  verify_checksum-verify_parts :
      (s c : Text)
      → AllValid s
      → AllValid c
      → NoHash c
      → verify_checksum B (s ++ b'#' ∷ c) ≡ (verify_parts B s c >> ok s)
  unfolding verify_checksum
  verify_checksum-verify_parts s c h k p =
      let found = find_last_hash-parts 0 (length (s ++ b'#' ∷ c)) s c h k p in
      let start = plus_left_zero (length s) in
      let inside =
        (ltb_iff (length s) (length (s ++ b'#' ∷ c))).1
          (omega (arith, length-append s (b'#' ∷ c))) in
      rw (found, start, inside, take_append s (b'#' ∷ c), drop_append s b'#' c) refl

  module _ (L : Bech32Laws B) where
    pub HasChecksum-some :
        (s : Text)
        → AllValid s
        → (sum : Text) × HasChecksum B s sum
          × (length sum ≡ checksum_length)
          × AllValid sum
          × NoHash sum
    unfolding input
    HasChecksum-some s h =
        let (eng, fed, ready) = input_unchecked-total L (new B) s (new-IsReady B) h in
        let (sum, left, made, len, valid, plain) = checksum_chars-total L eng ready in
        (sum, (eng, left, rw (check_chars-valid 0 s h) fed, made), len, valid, plain)

    -- The comparison of the last part of a text with the checksum of the first one.
    verify_parts-compared :
        (s c sum : Text)
        → AllValid s
        → HasChecksum B s sum
        → length c ≡ checksum_length
        → verify_parts B s c
          ≡ (if same_text sum c then ok tt else err (Fault.fails (Error.invalid_checksum c sum)))
    unfolding verify_parts input
    verify_parts-compared s c sum h (eng, left, fed, made) len =
        rw
          (
            (==_iff (length c) checksum_length).1 len,
            rw (check_chars-valid 0 s h) at fed,
            made,
            next_chars-all 8 c len,
          )
          refl

    answers_compared :
        (s c sum : Text)
        → HasChecksum B s sum
        → Answer B (s ++ b'#' ∷ c) (
            (if same_text sum c then ok tt else err (Fault.fails (Error.invalid_checksum c sum)))
            >> ok s)
    answers_compared s c sum has = elim (Bool-cases (same_text sum c)) [
      | inl same ↦ rw same (
          subst (λ u. Answer B (s ++ b'#' ∷ u) (ok s)) (same_text_sound sum c same)
            (Answer.right_checksum s sum has))
      | inr other ↦ rw other (Answer.wrong_checksum s c sum has (differ sum c other))
    ]

    answers_parts :
        (s c : Text)
        → AllValid s
        → AllValid c
        → NoHash c
        → Answer B (s ++ b'#' ∷ c) (verify_parts B s c >> ok s)
    unfolding verify_parts
    answers_parts s c h k p =
        let (sum, has, len, valid, plain) = HasChecksum-some s h in
        elim (Bool-cases (length c == checksum_length)) [
          | inr wrong ↦ rw wrong (
              Answer.invalid_length s c p (λ same. cc ((==_iff (length c) checksum_length).1 same)))
          | inl right ↦
              rw (verify_parts-compared s c sum h has ((==_iff (length c) checksum_length).0 right))
                (answers_compared s c sum has)
        ]

    answers_valid : {t : Text} → AllValid t → Parted t → Answer B t (verify_checksum B t)
    answers_valid {t} h (Parted.whole k) =
        rw (verify_checksum-whole t h k) (Answer.no_checksum t h k)
    answers_valid h (Parted.parts s c k) =
        let (before, (hash, after)) = append-All (λ ch. is_valid_char ch ≡ true) s (b'#' ∷ c) h in
        rw (verify_checksum-verify_parts s c before after k) (answers_parts s c before after k)

    answers : {t : Text} → Scanned t → Answer B t (verify_checksum B t)
    answers {t} (Scanned.all_valid h) = answers_valid h (parted t)
    answers (Scanned.first_invalid pre ch post h bad) =
        rw (verify_checksum-invalid pre ch post h bad) (Answer.invalid_character pre ch post h bad)

    pub verify_checksum-Answer : (t : Text) → Answer B t (verify_checksum B t)
    verify_checksum-Answer t = answers (scanned t)

    -- A text of valid characters, followed by `#` and the checksum that the engine computes of it, is
    -- verified, and the text is what is returned. The engine computes a checksum of each such text.
    pub verify_checksum-checksum_chars :
        (s : Text)
        → AllValid s
        → (sum : Text) × HasChecksum B s sum × (verify_checksum B (s ++ b'#' ∷ sum) ≡ ok s)
    verify_checksum-checksum_chars s h =
        let (sum, has, len, valid, plain) = HasChecksum-some s h in
        (
          sum,
          has,
          verify_checksum-verify_parts s sum h valid plain
              ∙ rw (verify_parts-compared s sum sum h has len, same_text_refl sum) refl,
        )

  right_answers :
      (t s : Text) (r : Result Fault Text)
      → Answer B t r
      → r ≡ ok s
      → ((t ≡ s) × NoHash s) ⊎ ((sum : Text) × HasChecksum B s sum × (t ≡ s ++ b'#' ∷ sum))
  right_answers t s r (Answer.no_checksum u h k) e =
      let same = ok_unique r refl e in inl (same, subst NoHash same k)
  right_answers t s r (Answer.right_checksum u sum has) e =
      let same = ok_unique r refl e in
      inr (sum, subst (λ v. HasChecksum B v sum) same has, ap (λ v. v ++ b'#' ∷ sum) same)
  right_answers t s r _ e = cc

  module _ (L : Bech32Laws B) where
    -- What `verify_checksum` returns is the whole text, which then has no `#`, or what comes before a
    -- `#` that the right checksum follows.
    pub verify_checksum_sound :
        (t s : Text)
        → verify_checksum B t ≡ ok s
        → ((t ≡ s) × NoHash s) ⊎ ((sum : Text) × HasChecksum B s sum × (t ≡ s ++ b'#' ∷ sum))
    verify_checksum_sound t s e =
        right_answers t s (verify_checksum B t) (verify_checksum-Answer L t) e
