-- ===== src/Types/Fragment.antt =====
-- `Type` of src/miniscript/types/mod.rs: both halves of a fragment's type. `Type` is a word of the
-- language, so the record is `Ty`.
use rust_miniscript.Prelude.{ℕ, Bool, true, false, not, ◌&&◌, ◌||◌, List, map, Result, ok, ◌>>=◌}
use rust_miniscript.Types.Kinds.{Base, Input, Dissat, ErrorKind, base_eq, input_eq, dissat_eq}
use rust_miniscript.Types.Correctness
use rust_miniscript.Types.Correctness.{Correctness}
use rust_miniscript.Types.Malleability
use rust_miniscript.Types.Malleability.{Malleability}

pub record Ty : Type 0 where
  pub corr : Correctness
  pub mall : Malleability

abbrev pub type_true : Ty
type_true = record { corr = Correctness.correct_true; mall = Malleability.malleable_true }

abbrev pub type_false : Ty
type_false = record { corr = Correctness.correct_false; mall = Malleability.malleable_false }

unfoldable pub is_subtype : Ty → Ty → Bool
unfolding Correctness.is_subtype Malleability.is_subtype
is_subtype s o = Correctness.is_subtype s.corr o.corr && Malleability.is_subtype s.mall o.mall

-- The four `debug_assert!`s of `sanity_checks`, as one test.
unfoldable pub sanity_checks : Ty → Bool
sanity_checks t =
    (not t.corr.dissatisfiable || not (dissat_eq t.mall.dissat Dissat.none))
    && (dissat_eq t.mall.dissat Dissat.none || not (base_eq t.corr.base Base.v))
    && (t.mall.safe || not (base_eq t.corr.base Base.k))
    && (t.mall.non_malleable || not (input_eq t.corr.input Input.zero))

abbrev pub pk_k : Ty
pk_k = record { corr = Correctness.pk_k; mall = Malleability.pk_k }

abbrev pub pk_h : Ty
pk_h = record { corr = Correctness.pk_h; mall = Malleability.pk_h }

abbrev pub multi : Ty
multi = record { corr = Correctness.multi; mall = Malleability.multi }

abbrev pub multi_a : Ty
multi_a = record { corr = Correctness.multi_a; mall = Malleability.multi_a }

abbrev pub hash : Ty
hash = record { corr = Correctness.hash; mall = Malleability.hash }

abbrev pub time : Ty
time = record { corr = Correctness.time; mall = Malleability.time }

abbrev pub tx_template : Ty
tx_template = record {
  corr = record { base = Base.v; input = Input.zero; dissatisfiable = false; unit = false };
  mall = record { dissat = Dissat.none; safe = true; non_malleable = true };
}

-- Both halves of a type, where the first may fail.
abbrev pub with_mall : Result ErrorKind Correctness → Malleability → Result ErrorKind Ty
with_mall c m = do x ← c; ok (record { corr = x; mall = m })

unfoldable pub cast_alt : Ty → Result ErrorKind Ty
unfolding Correctness.Wrappers.cast_alt Malleability.cast_alt
cast_alt s = with_mall (Correctness.Wrappers.cast_alt s.corr) (Malleability.cast_alt s.mall)

unfoldable pub cast_swap : Ty → Result ErrorKind Ty
unfolding Correctness.Wrappers.cast_swap Malleability.cast_swap
cast_swap s = with_mall (Correctness.Wrappers.cast_swap s.corr) (Malleability.cast_swap s.mall)

unfoldable pub cast_check : Ty → Result ErrorKind Ty
unfolding Correctness.Wrappers.cast_check Malleability.cast_check
cast_check s = with_mall (Correctness.Wrappers.cast_check s.corr) (Malleability.cast_check s.mall)

unfoldable pub cast_dupif : Ty → Result ErrorKind Ty
unfolding Correctness.Wrappers.cast_dupif Malleability.cast_dupif
cast_dupif s = with_mall (Correctness.Wrappers.cast_dupif s.corr) (Malleability.cast_dupif s.mall)

unfoldable pub cast_verify : Ty → Result ErrorKind Ty
unfolding Correctness.Wrappers.cast_verify Malleability.cast_verify
cast_verify s =
    with_mall (Correctness.Wrappers.cast_verify s.corr) (Malleability.cast_verify s.mall)

unfoldable pub cast_nonzero : Ty → Result ErrorKind Ty
unfolding Correctness.Wrappers.cast_nonzero Malleability.cast_nonzero
cast_nonzero s =
    with_mall (Correctness.Wrappers.cast_nonzero s.corr) (Malleability.cast_nonzero s.mall)

unfoldable pub cast_zeronotequal : Ty → Result ErrorKind Ty
unfolding Correctness.Wrappers.cast_zeronotequal Malleability.cast_zeronotequal
cast_zeronotequal s =
    with_mall (Correctness.Wrappers.cast_zeronotequal s.corr)
      (Malleability.cast_zeronotequal s.mall)

unfoldable pub cast_true : Ty → Result ErrorKind Ty
unfolding Correctness.Wrappers.cast_true Malleability.cast_true
cast_true s = with_mall (Correctness.Wrappers.cast_true s.corr) (Malleability.cast_true s.mall)

unfoldable pub cast_unlikely : Ty → Result ErrorKind Ty
unfolding Correctness.Wrappers.cast_or_i_false Malleability.cast_or_i_false
cast_unlikely s =
    with_mall (Correctness.Wrappers.cast_or_i_false s.corr) (Malleability.cast_or_i_false s.mall)

unfoldable pub cast_likely : Ty → Result ErrorKind Ty
unfolding Correctness.Wrappers.cast_or_i_false Malleability.cast_or_i_false
cast_likely s =
    with_mall (Correctness.Wrappers.cast_or_i_false s.corr) (Malleability.cast_or_i_false s.mall)

unfoldable pub and_b : Ty → Ty → Result ErrorKind Ty
unfolding Correctness.Combinators.and_b Malleability.and_b
and_b l r =
    with_mall (Correctness.Combinators.and_b l.corr r.corr) (Malleability.and_b l.mall r.mall)

unfoldable pub and_v : Ty → Ty → Result ErrorKind Ty
unfolding Correctness.Combinators.and_v Malleability.and_v
and_v l r =
    with_mall (Correctness.Combinators.and_v l.corr r.corr) (Malleability.and_v l.mall r.mall)

unfoldable pub or_b : Ty → Ty → Result ErrorKind Ty
unfolding Correctness.Combinators.or_b Malleability.or_b
or_b l r = with_mall (Correctness.Combinators.or_b l.corr r.corr) (Malleability.or_b l.mall r.mall)

unfoldable pub or_d : Ty → Ty → Result ErrorKind Ty
unfolding Correctness.Combinators.or_d Malleability.or_d
or_d l r = with_mall (Correctness.Combinators.or_d l.corr r.corr) (Malleability.or_d l.mall r.mall)

unfoldable pub or_c : Ty → Ty → Result ErrorKind Ty
unfolding Correctness.Combinators.or_c Malleability.or_c
or_c l r = with_mall (Correctness.Combinators.or_c l.corr r.corr) (Malleability.or_c l.mall r.mall)

unfoldable pub or_i : Ty → Ty → Result ErrorKind Ty
unfolding Correctness.Combinators.or_i Malleability.or_i
or_i l r = with_mall (Correctness.Combinators.or_i l.corr r.corr) (Malleability.or_i l.mall r.mall)

unfoldable pub and_or : Ty → Ty → Ty → Result ErrorKind Ty
unfolding Correctness.Combinators.and_or Malleability.and_or
and_or x y z =
    with_mall (Correctness.Combinators.and_or x.corr y.corr z.corr)
      (Malleability.and_or x.mall y.mall z.mall)

unfoldable pub threshold : ℕ → List Ty → Result ErrorKind Ty
unfolding Correctness.Combinators.threshold Malleability.threshold
threshold k subs =
    with_mall (Correctness.Combinators.threshold k (map (λ s. s.corr) subs))
      (Malleability.threshold k (map (λ s. s.mall) subs))
