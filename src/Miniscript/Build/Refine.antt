-- ===== src/Miniscript/Build/Refine.antt =====
-- `Type::type_check` of src/miniscript/types/mod.rs on the same fragment over children of different
-- types, compared by `is_subtype`.
use rust_miniscript.Prelude.{ℕ, true, ◌≡◌, List, All₂, Result, ok, err, arith}
use rust_miniscript.Primitives.Locktime.{Bitcoin}
use rust_miniscript.Types.Kinds.{ErrorKind}
use rust_miniscript.Types.Fragment
use rust_miniscript.Types.Fragment.{Ty}
use rust_miniscript.Types.Subtype.Rules
use rust_miniscript.Types.Subtype.Rules.{SubTy, Refines, is_subtype→SubTy, SubTy→is_subtype}
use rust_miniscript.Miniscript.Ast.{
  MiniscriptKey, Inscription, Terminal, Miniscript, Subs, nil, cons, ty, tys,
}
use rust_miniscript.Miniscript.Check.{type_check, check_inscribe}

module _ {B : Bitcoin} {K : MiniscriptKey} where
  -- The child has a subtype of the other's type.
  abbrev pub Below : Miniscript B K → Miniscript B K → Type 0
  Below s t = Fragment.is_subtype (ty s) (ty t) ≡ true

  abbrev pub SubsBelow : Subs B K → Subs B K → Type 0
  SubsBelow nil nil = Unit
  SubsBelow (cons s ss) (cons t ts) = Below s t × SubsBelow ss ts
  SubsBelow _ _ = ⊥

  -- The same fragment, over children of subtypes.
  pub data NodeBelow : Terminal B K → Terminal B K → Type 0 where
    inscribe_pre :
        {i : List Inscription} {s t : Miniscript B K}
        → Below s t
        → NodeBelow (Terminal.inscribe_pre i s) (Terminal.inscribe_pre i t)
    inscribe_post :
        {i : List Inscription} {s t : Miniscript B K}
        → Below s t
        → NodeBelow (Terminal.inscribe_post i s) (Terminal.inscribe_post i t)
    alt : {s t : Miniscript B K} → Below s t → NodeBelow (Terminal.alt s) (Terminal.alt t)
    swap : {s t : Miniscript B K} → Below s t → NodeBelow (Terminal.swap s) (Terminal.swap t)
    check : {s t : Miniscript B K} → Below s t → NodeBelow (Terminal.check s) (Terminal.check t)
    dup_if : {s t : Miniscript B K} → Below s t → NodeBelow (Terminal.dup_if s) (Terminal.dup_if t)
    verify : {s t : Miniscript B K} → Below s t → NodeBelow (Terminal.verify s) (Terminal.verify t)
    non_zero :
        {s t : Miniscript B K} → Below s t → NodeBelow (Terminal.non_zero s) (Terminal.non_zero t)
    zero_not_equal :
        {s t : Miniscript B K}
        → Below s t
        → NodeBelow (Terminal.zero_not_equal s) (Terminal.zero_not_equal t)
    and_v :
        {s t s' t' : Miniscript B K}
        → Below s s'
        → Below t t'
        → NodeBelow (Terminal.and_v s t) (Terminal.and_v s' t')
    and_b :
        {s t s' t' : Miniscript B K}
        → Below s s'
        → Below t t'
        → NodeBelow (Terminal.and_b s t) (Terminal.and_b s' t')
    or_b :
        {s t s' t' : Miniscript B K}
        → Below s s'
        → Below t t'
        → NodeBelow (Terminal.or_b s t) (Terminal.or_b s' t')
    or_d :
        {s t s' t' : Miniscript B K}
        → Below s s'
        → Below t t'
        → NodeBelow (Terminal.or_d s t) (Terminal.or_d s' t')
    or_c :
        {s t s' t' : Miniscript B K}
        → Below s s'
        → Below t t'
        → NodeBelow (Terminal.or_c s t) (Terminal.or_c s' t')
    or_i :
        {s t s' t' : Miniscript B K}
        → Below s s'
        → Below t t'
        → NodeBelow (Terminal.or_i s t) (Terminal.or_i s' t')
    and_or :
        {s t u s' t' u' : Miniscript B K}
        → Below s s'
        → Below t t'
        → Below u u'
        → NodeBelow (Terminal.and_or s t u) (Terminal.and_or s' t' u')
    thresh :
        {k : ℕ} {ss ts : Subs B K}
        → SubsBelow ss ts
        → NodeBelow (Terminal.thresh k ss) (Terminal.thresh k ts)

check_inscribe-Refines :
    (B : Bitcoin) (i : List Inscription) (s t : Ty)
    → SubTy s t
    → Refines (check_inscribe B i s) (check_inscribe B i t)
unfolding check_inscribe
check_inscribe-Refines B i s t h = ground arith

-- The comparison of the two results.
abbrev pub RefinesBy : Result ErrorKind Ty → Result ErrorKind Ty → Type 0
RefinesBy _ (err e) = Unit
RefinesBy (ok s) (ok t) = Fragment.is_subtype s t ≡ true
RefinesBy (err e) (ok t) = ⊥

Refines→RefinesBy : (r r' : Result ErrorKind Ty) → Refines r r' → RefinesBy r r'
Refines→RefinesBy (ok s) (ok t) h = SubTy→is_subtype s t h
Refines→RefinesBy (ok s) (err e) h = tt
Refines→RefinesBy (err e) (ok t) h = h
Refines→RefinesBy (err e) (err e') h = tt

module _ {B : Bitcoin} {K : MiniscriptKey} where
  sub : (s t : Miniscript B K) → Below s t → SubTy (ty s) (ty t)
  sub s t h = is_subtype→SubTy (ty s) (ty t) h

  subs : (ss ts : Subs B K) → SubsBelow ss ts → All₂ SubTy (tys ss) (tys ts)
  subs nil nil h = h
  subs nil (cons t ts) h = h
  subs (cons s ss) nil h = h
  subs (cons s ss) (cons t ts) h = (sub s t h.0, subs ss ts h.1)

  node-Refines : {n m : Terminal B K} → NodeBelow n m → Refines (type_check n) (type_check m)
  unfolding type_check
  node-Refines (inscribe_pre {i} {s} {t} h) = check_inscribe-Refines B i (ty s) (ty t) (sub s t h)
  node-Refines (inscribe_post {i} {s} {t} h) = check_inscribe-Refines B i (ty s) (ty t) (sub s t h)
  node-Refines (alt {s} {t} h) = Rules.cast_alt-Refines (ty s) (ty t) (sub s t h)
  node-Refines (swap {s} {t} h) = Rules.cast_swap-Refines (ty s) (ty t) (sub s t h)
  node-Refines (check {s} {t} h) = Rules.cast_check-Refines (ty s) (ty t) (sub s t h)
  node-Refines (dup_if {s} {t} h) = Rules.cast_dupif-Refines (ty s) (ty t) (sub s t h)
  node-Refines (verify {s} {t} h) = Rules.cast_verify-Refines (ty s) (ty t) (sub s t h)
  node-Refines (non_zero {s} {t} h) = Rules.cast_nonzero-Refines (ty s) (ty t) (sub s t h)
  node-Refines (zero_not_equal {s} {t} h) =
      Rules.cast_zeronotequal-Refines (ty s) (ty t) (sub s t h)
  node-Refines (and_v {s} {t} {s'} {t'} h k) =
      Rules.and_v-Refines (ty s) (ty t) (ty s') (ty t') (sub s s' h) (sub t t' k)
  node-Refines (and_b {s} {t} {s'} {t'} h k) =
      Rules.and_b-Refines (ty s) (ty t) (ty s') (ty t') (sub s s' h) (sub t t' k)
  node-Refines (or_b {s} {t} {s'} {t'} h k) =
      Rules.or_b-Refines (ty s) (ty t) (ty s') (ty t') (sub s s' h) (sub t t' k)
  node-Refines (or_d {s} {t} {s'} {t'} h k) =
      Rules.or_d-Refines (ty s) (ty t) (ty s') (ty t') (sub s s' h) (sub t t' k)
  node-Refines (or_c {s} {t} {s'} {t'} h k) =
      Rules.or_c-Refines (ty s) (ty t) (ty s') (ty t') (sub s s' h) (sub t t' k)
  node-Refines (or_i {s} {t} {s'} {t'} h k) =
      Rules.or_i-Refines (ty s) (ty t) (ty s') (ty t') (sub s s' h) (sub t t' k)
  node-Refines (and_or {s} {t} {u} {s'} {t'} {u'} h k l) =
      Rules.and_or-Refines (ty s) (ty t) (ty u) (ty s') (ty t') (ty u') (sub s s' h) (sub t t' k)
        (sub u u' l)
  node-Refines (thresh {k} {ss} {ts} h) = Rules.threshold-Refines k (tys ss) (tys ts) (subs ss ts h)

  -- Where a fragment is well typed, so is the same fragment over children whose types are subtypes,
  -- and its type is a subtype.
  pub type_check-is_subtype :
      {n m : Terminal B K} → NodeBelow n m → RefinesBy (type_check n) (type_check m)
  type_check-is_subtype {n} {m} h = Refines→RefinesBy (type_check n) (type_check m) (node-Refines h)
