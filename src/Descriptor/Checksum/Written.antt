-- ===== src/Descriptor/Checksum/Written.antt =====
-- What the `Formatter` of src/descriptor/checksum.rs writes, and the engine on a text in pieces.
use rust_miniscript.Prelude.{
  Bool, true, false, List, [], ◌∷◌, ◌++◌, Result, ok, err, ◌>>=◌, ◌≡◌, refl, sym, ap, ◌∙◌, All,
  All-append, subst, ok_unique,
}
use rust_miniscript.Descriptor.Checksum.{
  Bech32, Text, Fault, input_char, checksum_chars, is_valid_char, Engine, new, input_unchecked,
  input, Formatter, formatter, write_str, write_checksum_if_not_alt, verify_checksum,
}
use rust_miniscript.Descriptor.Checksum.Engines.{
  Bech32Laws, AllValid, IsReady, new-IsReady, input_unchecked-total,
}
use rust_miniscript.Descriptor.Checksum.Scan.{check_chars-valid}
use rust_miniscript.Descriptor.Checksum.Verify.{HasChecksum, verify_checksum-checksum_chars}

abbrev pub concat : List Text → Text
concat [] = []
concat (s ∷ ss) = s ++ concat ss

-- A sequence of calls of `write_str`.
abbrev pub write_all : {B : Bech32} → Formatter B → List Text → Result Fault (Formatter B)
write_all f [] = ok f
write_all {B} f (s ∷ ss) = do next ← write_str B f s; write_all next ss

concat-AllValid : (ss : List Text) → All AllValid ss → AllValid (concat ss)
concat-AllValid [] h = tt
concat-AllValid (s ∷ ss) h =
    All-append (λ ch. is_valid_char ch ≡ true) s (concat ss) h.0 (concat-AllValid ss h.1)

append_assoc : (a b c : Text) → (a ++ b) ++ c ≡ a ++ (b ++ c)
append_assoc [] b c = refl
append_assoc (x ∷ a) b c = ap (λ r. x ∷ r) (append_assoc a b c)

append_nil : (a : Text) → a ++ [] ≡ a
append_nil [] = refl
append_nil (x ∷ a) = ap (λ r. x ∷ r) (append_nil a)

-- A bind is taken apart at its first part.
bind_append :
    {X Y Z : Type 0} (r : Result Fault X) (f : X → Result Fault Z) (g : X → Result Fault Y)
    (k : Y → Result Fault Z)
    → ((x : X) → f x ≡ (g x >>= k))
    → (r >>= f) ≡ ((r >>= g) >>= k)
bind_append (err e) f g k h = refl
bind_append (ok x) f g k h = h x

-- The engine takes in a text as it takes in its two parts one after the other.
pub input_unchecked-append :
    (B : Bech32) (e : Engine B) (s t : Text)
    → input_unchecked B e (s ++ t) ≡ (do mid ← input_unchecked B e s; input_unchecked B mid t)
unfolding input_unchecked
input_unchecked-append B e [] t = refl
input_unchecked-append B e (ch ∷ s) t =
    bind_append (input_char B e ch) (λ next. input_unchecked B next (s ++ t))
      (λ next. input_unchecked B next s) (λ mid. input_unchecked B mid t)
      (λ next. input_unchecked-append B next s t)

module _ {B : Bech32} (L : Bech32Laws B) where
  input-valid : (e : Engine B) (s : Text) → AllValid s → input B e s ≡ input_unchecked B e s
  unfolding input
  input-valid e s h = rw (check_chars-valid 0 s h) refl

  -- All the pieces are written, and the engine is that of all of them at once.
  write_all-concat :
      (f : Formatter B) (ss : List Text)
      → IsReady f.eng
      → All AllValid ss
      → (eng : Engine B) × (input_unchecked B f.eng (concat ss) ≡ ok eng)
        × (write_all f ss
            ≡ ok (record { written = f.written ++ concat ss; alternate = f.alternate; eng = eng }))
  unfolding write_str input_unchecked
  write_all-concat f [] ready h = (
    f.eng,
    refl,
    ap (λ w. ok (record { written = w; alternate = f.alternate; eng = f.eng }))
        (sym (append_nil f.written)),
  )
  write_all-concat f (s ∷ ss) ready h =
      let (mid, first, again) = input_unchecked-total L f.eng s ready h.0 in
      let next : Formatter B = record {
        written = f.written ++ s;
        alternate = f.alternate;
        eng = mid;
      } in
      let (eng, rest, all) = write_all-concat next ss again h.1 in
      (
        eng,
        input_unchecked-append B f.eng s (concat ss) ∙ rw first rest,
        rw (input-valid f.eng s h.0, first)
            (all
              ∙ ap (λ w. ok (record { written = w; alternate = f.alternate; eng = eng }))
                  (append_assoc f.written s (concat ss))),
      )

  -- There is one engine that has taken in a text, so that its checksum is the text's.
  HasChecksum-checksum_chars :
      (s sum : Text) (eng : Engine B)
      → AllValid s
      → input_unchecked B (new B) s ≡ ok eng
      → HasChecksum B s sum
      → (left : Engine B) × (checksum_chars B eng ≡ ok (sum, left))
  HasChecksum-checksum_chars s sum eng h fed (other, left, took, made) =
      let same =
        ok_unique (input_unchecked B (new B) s) (sym (input-valid (new B) s h) ∙ took) fed in
      (left, subst (λ e. checksum_chars B e ≡ ok (sum, left)) same made)

  -- What is written in pieces of valid characters, and then ended by `write_checksum_if_not_alt`: the
  -- pieces alone under the alternate flag, and otherwise a text that `verify_checksum` accepts, and
  -- from which it returns the pieces.
  pub verify_checksum-write_checksum_if_not_alt :
      (alternate : Bool) (ss : List Text)
      → All AllValid ss
      → (f : Formatter B) × ((do
        all ← write_all (formatter B alternate) ss
        write_checksum_if_not_alt B all)
          ≡ ok f)
        × (alternate ≡ true → f.written ≡ concat ss)
        × (alternate ≡ false → verify_checksum B f.written ≡ ok (concat ss))
  unfolding formatter write_checksum_if_not_alt input
  verify_checksum-write_checksum_if_not_alt true ss h =
      let (eng, fed, all) = write_all-concat (formatter B true) ss (new-IsReady B) h in
      (
        record { written = concat ss; alternate = true; eng = eng },
        rw all refl,
        (λ e. refl),
        (λ e. cc),
      )
  verify_checksum-write_checksum_if_not_alt false ss h =
      let valid = concat-AllValid ss h in
      let (eng, fed, all) = write_all-concat (formatter B false) ss (new-IsReady B) h in
      let (sum, has, right) = verify_checksum-checksum_chars B L (concat ss) valid in
      let made = HasChecksum-checksum_chars (concat ss) sum eng valid fed has in
      (
        record { written = concat ss ++ b'#' ∷ sum; alternate = false; eng = made.0 },
        rw all (rw made.1 refl),
        (λ e. cc),
        (λ e. right),
      )
