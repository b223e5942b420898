-- ===== src/Types/Malleability.antt =====
-- src/miniscript/types/malleability.rs: the malleability half of a fragment's type. The functions
-- here do not fail.
use rust_miniscript.Prelude.{
  ℕ, ◌+◌, ◌-◌, Bool, true, false, ◌&&◌, ◌||◌, List, [], ◌∷◌, length, ltb, leb, ◌==◌, geb, from_bool,
  if◌then◌else◌,
}
use rust_miniscript.Types.Kinds.{Dissat, dissat_eq, dissat_is_subtype}

pub record Malleability : Type 0 where
  pub dissat : Dissat
  pub safe : Bool
  pub non_malleable : Bool

abbrev pub malleable_true : Malleability
malleable_true = record { dissat = Dissat.none; safe = false; non_malleable = true }

abbrev pub malleable_false : Malleability
malleable_false = record { dissat = Dissat.unique; safe = true; non_malleable = true }

unfoldable pub is_subtype : Malleability → Malleability → Bool
is_subtype s o =
    dissat_is_subtype s.dissat o.dissat && geb s.safe o.safe && geb s.non_malleable o.non_malleable

abbrev pub pk_k : Malleability
pk_k = record { dissat = Dissat.unique; safe = true; non_malleable = true }

abbrev pub pk_h : Malleability
pk_h = record { dissat = Dissat.unique; safe = true; non_malleable = true }

abbrev pub multi : Malleability
multi = record { dissat = Dissat.unique; safe = true; non_malleable = true }

abbrev pub multi_a : Malleability
multi_a = record { dissat = Dissat.unique; safe = true; non_malleable = true }

abbrev pub hash : Malleability
hash = record { dissat = Dissat.unknown; safe = false; non_malleable = true }

abbrev pub time : Malleability
time = record { dissat = Dissat.none; safe = false; non_malleable = true }

unfoldable pub cast_alt : Malleability → Malleability
cast_alt s = s

unfoldable pub cast_swap : Malleability → Malleability
cast_swap s = s

unfoldable pub cast_check : Malleability → Malleability
cast_check s = s

-- `if self.dissat.constfn_eq(Dissat::None) { Unique } else { Unknown }`.
abbrev none_to_unique : Dissat → Dissat
none_to_unique d = if dissat_eq d Dissat.none then Dissat.unique else Dissat.unknown

unfoldable pub cast_dupif : Malleability → Malleability
cast_dupif s = record {
  dissat = none_to_unique s.dissat;
  safe = s.safe;
  non_malleable = s.non_malleable;
}

unfoldable pub cast_verify : Malleability → Malleability
cast_verify s = record { dissat = Dissat.none; safe = s.safe; non_malleable = s.non_malleable }

unfoldable pub cast_nonzero : Malleability → Malleability
cast_nonzero s = record {
  dissat = none_to_unique s.dissat;
  safe = s.safe;
  non_malleable = s.non_malleable;
}

unfoldable pub cast_zeronotequal : Malleability → Malleability
cast_zeronotequal s = s

unfoldable pub cast_true : Malleability → Malleability
cast_true s = record { dissat = Dissat.none; safe = s.safe; non_malleable = s.non_malleable }

unfoldable pub cast_or_i_false : Malleability → Malleability
cast_or_i_false s = record {
  dissat = none_to_unique s.dissat;
  safe = s.safe;
  non_malleable = s.non_malleable;
}

-- The `match` of `and_b`, over the two dissatisfactions and the two `safe` flags.
unfoldable pub and_b_dissat : Dissat → Dissat → Bool → Bool → Dissat
and_b_dissat Dissat.none Dissat.none ls rs = Dissat.none
and_b_dissat Dissat.none _ ls rs = if ls then Dissat.none else Dissat.unknown
and_b_dissat _ Dissat.none ls rs = if rs then Dissat.none else Dissat.unknown
and_b_dissat Dissat.unique Dissat.unique ls rs = if ls && rs then Dissat.unique else Dissat.unknown
and_b_dissat _ _ ls rs = Dissat.unknown

unfoldable pub and_b : Malleability → Malleability → Malleability
and_b l r = record {
  dissat = and_b_dissat l.dissat r.dissat l.safe r.safe;
  safe = l.safe || r.safe;
  non_malleable = l.non_malleable && r.non_malleable;
}

unfoldable pub and_v_dissat : Bool → Dissat → Dissat
and_v_dissat _ Dissat.none = Dissat.none
and_v_dissat true _ = Dissat.none
and_v_dissat _ _ = Dissat.unknown

unfoldable pub and_v : Malleability → Malleability → Malleability
and_v l r = record {
  dissat = and_v_dissat l.safe r.dissat;
  safe = l.safe || r.safe;
  non_malleable = l.non_malleable && r.non_malleable;
}

unfoldable pub or_b : Malleability → Malleability → Malleability
or_b l r = record {
  dissat = Dissat.unique;
  safe = l.safe && r.safe;
  non_malleable =
      l.non_malleable
      && dissat_eq l.dissat Dissat.unique
      && r.non_malleable
      && dissat_eq r.dissat Dissat.unique
      && (l.safe || r.safe);
}

unfoldable pub or_d : Malleability → Malleability → Malleability
or_d l r = record {
  dissat = r.dissat;
  safe = l.safe && r.safe;
  non_malleable =
      l.non_malleable && dissat_eq l.dissat Dissat.unique && r.non_malleable && (l.safe || r.safe);
}

unfoldable pub or_c : Malleability → Malleability → Malleability
or_c l r = record {
  dissat = Dissat.none;
  safe = l.safe && r.safe;
  non_malleable =
      l.non_malleable && dissat_eq l.dissat Dissat.unique && r.non_malleable && (l.safe || r.safe);
}

unfoldable pub or_i_dissat : Dissat → Dissat → Dissat
or_i_dissat Dissat.none Dissat.none = Dissat.none
or_i_dissat Dissat.unique Dissat.none = Dissat.unique
or_i_dissat Dissat.none Dissat.unique = Dissat.unique
or_i_dissat _ _ = Dissat.unknown

unfoldable pub or_i : Malleability → Malleability → Malleability
or_i l r = record {
  dissat = or_i_dissat l.dissat r.dissat;
  safe = l.safe && r.safe;
  non_malleable = l.non_malleable && r.non_malleable && (l.safe || r.safe);
}

unfoldable pub and_or_dissat : Bool → Dissat → Dissat → Dissat
and_or_dissat _ Dissat.none Dissat.unique = Dissat.unique
and_or_dissat true _ Dissat.unique = Dissat.unique
and_or_dissat _ Dissat.none Dissat.none = Dissat.none
and_or_dissat true _ Dissat.none = Dissat.none
and_or_dissat _ _ _ = Dissat.unknown

unfoldable pub and_or : Malleability → Malleability → Malleability → Malleability
and_or x y z = record {
  dissat = and_or_dissat x.safe y.dissat z.dissat;
  safe = (x.safe || y.safe) && z.safe;
  non_malleable =
      x.non_malleable
      && z.non_malleable
      && dissat_eq x.dissat Dissat.unique
      && y.non_malleable
      && (x.safe || y.safe || z.safe);
}

-- The three variables of the loop in `threshold`.
pub record Tally : Type 0 where
  pub safe_count : ℕ
  pub all_are_dissat_unique : Bool
  pub all_are_non_malleable : Bool

unfoldable pub tally : List Malleability → Tally → Tally
tally [] t = t
tally (sub ∷ subs) t = tally subs (record {
  safe_count = t.safe_count + from_bool sub.safe;
  all_are_dissat_unique = t.all_are_dissat_unique && dissat_eq sub.dissat Dissat.unique;
  all_are_non_malleable = t.all_are_non_malleable && sub.non_malleable;
})

abbrev pub threshold_of : ℕ → ℕ → Tally → Malleability
threshold_of n k t = record {
  dissat = if t.all_are_dissat_unique && t.safe_count == n then Dissat.unique else Dissat.unknown;
  safe = ltb (n - k) t.safe_count;
  non_malleable = t.all_are_non_malleable && leb (n - k) t.safe_count && t.all_are_dissat_unique;
}

unfoldable pub threshold : ℕ → List Malleability → Malleability
unfolding tally
threshold k subs = threshold_of (length subs) k (
    tally subs
      (record { safe_count = 0; all_are_dissat_unique = true; all_are_non_malleable = true }))
