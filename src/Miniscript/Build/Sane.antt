-- ===== src/Miniscript/Build/Sane.antt =====
-- The assertions of `sanity_checks` in src/miniscript/types, on the trees of `from_ast`.
use rust_miniscript.Prelude.{ℕ, true, ◌≡◌, List, All, ok, Result, arith, subst}
use rust_miniscript.Primitives.Locktime.{Bitcoin}
use native.Mathlib.Nat.{le_trans}
use rust_miniscript.Types.Kinds.{ErrorKind}
use rust_miniscript.Types.Correctness
use rust_miniscript.Types.Fragment
use rust_miniscript.Types.Fragment.{Ty}
use rust_miniscript.Types.Sanity
use rust_miniscript.Types.Sanity.{IsSane}
use rust_miniscript.Ext.Data.{ExtData}
use rust_miniscript.Ext.Leaves.{SigType}
use rust_miniscript.Miniscript.Ast.{
  MiniscriptKey, Inscription, Terminal, Miniscript, miniscript, Subs, nil, cons, ty, tys,
}
use rust_miniscript.Miniscript.Check.{type_check, check_inscribe}
use rust_miniscript.Miniscript.Context.{Context, sig_type}
use rust_miniscript.Miniscript.Build.{Everywhere, EveryChild, EverySub, IsBuilt, Checked}
use rust_miniscript.Miniscript.Build.Annotated.{IsBuilt-IsAnnotated}

inscribe-IsSane :
    (B : Bitcoin) (i : List Inscription) (s : Ty) {t : Ty}
    → IsSane s
    → check_inscribe B i s ≡ ok t
    → IsSane t
unfolding check_inscribe
inscribe-IsSane B i s h e = ground arith

true-IsSane : IsSane Fragment.type_true
true-IsSane = ground arith

false-IsSane : IsSane Fragment.type_false
false-IsSane = ground arith

pk_k-IsSane : IsSane Fragment.pk_k
pk_k-IsSane = ground arith

pk_h-IsSane : IsSane Fragment.pk_h
pk_h-IsSane = ground arith

multi-IsSane : IsSane Fragment.multi
multi-IsSane = ground arith

multi_a-IsSane : IsSane Fragment.multi_a
multi_a-IsSane = ground arith

hash-IsSane : IsSane Fragment.hash
hash-IsSane = ground arith

time-IsSane : IsSane Fragment.time
time-IsSane = ground arith

tx_template-IsSane : IsSane Fragment.tx_template
tx_template-IsSane = ground arith

-- The type of a leaf is a constant.
of_leaf : (s : Ty) {t : Ty} → IsSane s → ◌≡◌ {A = Result ErrorKind Ty} (ok s) (ok t) → IsSane t
of_leaf s h e = subst IsSane (cc e) h

module _ {B : Bitcoin} {K : MiniscriptKey} (size : Inscription → ℕ) (sig : SigType) where
  abbrev Ann : Terminal B K → Ty → ExtData → Type 0
  Ann = Checked size sig

  mutual
    unfolding type_check

    sane : (ms : Miniscript B K) → Everywhere Ann ms → IsSane (ty ms)
    sane (miniscript n t e) h = node-IsSane n t h.1 (Checked.ty h.0)

    node-IsSane : (n : Terminal B K) (t : Ty) → EveryChild Ann n → type_check n ≡ ok t → IsSane t
    node-IsSane Terminal.true t h e = of_leaf _ true-IsSane e
    node-IsSane Terminal.false t h e = of_leaf _ false-IsSane e
    node-IsSane (Terminal.pk_k _) t h e = of_leaf _ pk_k-IsSane e
    node-IsSane (Terminal.pk_h _) t h e = of_leaf _ pk_h-IsSane e
    node-IsSane (Terminal.raw_pk_h _) t h e = of_leaf _ pk_h-IsSane e
    node-IsSane (Terminal.multi _) t h e = of_leaf _ multi-IsSane e
    node-IsSane (Terminal.multi_a _) t h e = of_leaf _ multi_a-IsSane e
    node-IsSane (Terminal.after _) t h e = of_leaf _ time-IsSane e
    node-IsSane (Terminal.older _) t h e = of_leaf _ time-IsSane e
    node-IsSane (Terminal.sha256 _) t h e = of_leaf _ hash-IsSane e
    node-IsSane (Terminal.hash256 _) t h e = of_leaf _ hash-IsSane e
    node-IsSane (Terminal.ripemd160 _) t h e = of_leaf _ hash-IsSane e
    node-IsSane (Terminal.hash160 _) t h e = of_leaf _ hash-IsSane e
    node-IsSane (Terminal.tx_template _) t h e = of_leaf _ tx_template-IsSane e
    node-IsSane (Terminal.inscribe_pre i s) t h e = inscribe-IsSane B i (ty s) (sane s h) e
    node-IsSane (Terminal.inscribe_post i s) t h e = inscribe-IsSane B i (ty s) (sane s h) e
    node-IsSane (Terminal.alt s) t h e = Sanity.cast_alt-IsSane (ty s) (sane s h) e
    node-IsSane (Terminal.swap s) t h e = Sanity.cast_swap-IsSane (ty s) (sane s h) e
    node-IsSane (Terminal.check s) t h e = Sanity.cast_check-IsSane (ty s) (sane s h) e
    node-IsSane (Terminal.dup_if s) t h e = Sanity.cast_dupif-IsSane (ty s) (sane s h) e
    node-IsSane (Terminal.verify s) t h e = Sanity.cast_verify-IsSane (ty s) (sane s h) e
    node-IsSane (Terminal.non_zero s) t h e = Sanity.cast_nonzero-IsSane (ty s) (sane s h) e
    node-IsSane (Terminal.zero_not_equal s) t h e =
        Sanity.cast_zeronotequal-IsSane (ty s) (sane s h) e
    node-IsSane (Terminal.and_b l r) t h e =
        Sanity.and_b-IsSane (ty l) (ty r) (sane l h.0) (sane r h.1) e
    node-IsSane (Terminal.and_v l r) t h e =
        Sanity.and_v-IsSane (ty l) (ty r) (sane l h.0) (sane r h.1) e
    node-IsSane (Terminal.or_b l r) t h e =
        Sanity.or_b-IsSane (ty l) (ty r) (sane l h.0) (sane r h.1) e
    node-IsSane (Terminal.or_d l r) t h e =
        Sanity.or_d-IsSane (ty l) (ty r) (sane l h.0) (sane r h.1) e
    node-IsSane (Terminal.or_c l r) t h e =
        Sanity.or_c-IsSane (ty l) (ty r) (sane l h.0) (sane r h.1) e
    node-IsSane (Terminal.or_i l r) t h e =
        Sanity.or_i-IsSane (ty l) (ty r) (sane l h.0) (sane r h.1) e
    node-IsSane (Terminal.and_or x y z) t h e =
        Sanity.and_or-IsSane (ty x) (ty y) (ty z) (sane x h.0) (sane y h.1) (sane z h.2) e
    node-IsSane (Terminal.thresh k ss) t h e =
        Sanity.threshold-IsSane k (tys ss) h.0 (le_trans h.0 h.1) (children-IsSane ss h.2) e

    children-IsSane : (ss : Subs B K) → EverySub Ann ss → All IsSane (tys ss)
    children-IsSane nil h = tt
    children-IsSane (cons s ss) h = (sane s h.0, children-IsSane ss h.1)

module _ {B : Bitcoin} {K : MiniscriptKey} (size : Inscription → ℕ) (c : Context) where
  -- A tree built by `from_ast` passes every assertion of `Type::sanity_checks` and of
  -- `Correctness::sanity_checks`.
  pub IsBuilt-sanity_checks :
      (ms : Miniscript B K)
      → IsBuilt size c ms
      → (Fragment.sanity_checks (ty ms) ≡ true) × (Correctness.sanity_checks (ty ms).corr ≡ true)
  IsBuilt-sanity_checks ms h =
      let s = sane size (sig_type c) ms (IsBuilt-IsAnnotated size c ms h) in
      (Sanity.IsSane-sanity_checks (ty ms) s, Sanity.IsSane-correctness (ty ms) s)
