-- ===== src/Miniscript/Build/Annotated.antt =====
-- The steps of `from_ast` of src/miniscript/mod.rs taken apart: the annotations, and the checks.
use rust_miniscript.Prelude.{
  ℕ, ◌%◌, ◌^◌, ◌≤◌, Bool, true, false, ◌≡◌, refl, sym, ap, subst, Result, ok, err, ◌>>=◌, ◌>>◌,
  arith, ltb, if◌then◌else◌,
}
use rust_miniscript.Primitives.Locktime.{Bitcoin}
use rust_miniscript.Types.Kinds.{ErrorKind}
use rust_miniscript.Types.Fragment.{Ty}
use rust_miniscript.Ext.Data.{ExtData}
use rust_miniscript.Miniscript.Ast.{
  MiniscriptKey, Inscription, Terminal, Miniscript, miniscript, Subs, nil, cons,
}
use rust_miniscript.Miniscript.Check.{type_check, ext_check}
use rust_miniscript.Miniscript.Context.{
  Context, sig_type, check_global_validity, ScriptContextError,
}
use rust_miniscript.Miniscript.Build.{
  from_ast, Everywhere, EveryChild, EverySub, IsBuilt, Checked, IsAnnotated, Error, map_err,
  max_recursion_depth,
}

-- A predicate that follows from another at each node follows everywhere.
module _ {B : Bitcoin} {K : MiniscriptKey} (P Q : Terminal B K → Ty → ExtData → Type 0)
    (f : (n : Terminal B K) (t : Ty) (e : ExtData) → P n t e → Q n t e) where
  mutual
    pub Everywhere-map : (ms : Miniscript B K) → Everywhere P ms → Everywhere Q ms
    Everywhere-map (miniscript n t e) h = (f n t e h.0, EveryChild-map n h.1)

    EveryChild-map : (n : Terminal B K) → EveryChild P n → EveryChild Q n
    EveryChild-map (Terminal.inscribe_pre i s) h = Everywhere-map s h
    EveryChild-map (Terminal.inscribe_post i s) h = Everywhere-map s h
    EveryChild-map (Terminal.alt s) h = Everywhere-map s h
    EveryChild-map (Terminal.swap s) h = Everywhere-map s h
    EveryChild-map (Terminal.check s) h = Everywhere-map s h
    EveryChild-map (Terminal.dup_if s) h = Everywhere-map s h
    EveryChild-map (Terminal.verify s) h = Everywhere-map s h
    EveryChild-map (Terminal.non_zero s) h = Everywhere-map s h
    EveryChild-map (Terminal.zero_not_equal s) h = Everywhere-map s h
    EveryChild-map (Terminal.and_v l r) h = (Everywhere-map l h.0, Everywhere-map r h.1)
    EveryChild-map (Terminal.and_b l r) h = (Everywhere-map l h.0, Everywhere-map r h.1)
    EveryChild-map (Terminal.and_or x y z) h =
        (Everywhere-map x h.0, Everywhere-map y h.1, Everywhere-map z h.2)
    EveryChild-map (Terminal.or_b l r) h = (Everywhere-map l h.0, Everywhere-map r h.1)
    EveryChild-map (Terminal.or_d l r) h = (Everywhere-map l h.0, Everywhere-map r h.1)
    EveryChild-map (Terminal.or_c l r) h = (Everywhere-map l h.0, Everywhere-map r h.1)
    EveryChild-map (Terminal.or_i l r) h = (Everywhere-map l h.0, Everywhere-map r h.1)
    EveryChild-map (Terminal.thresh k ss) h = (h.0, h.1, EverySub-map ss h.2)
    EveryChild-map (Terminal.multi t) h = h
    EveryChild-map (Terminal.multi_a t) h = h
    EveryChild-map _ h = tt

    EverySub-map : (ss : Subs B K) → EverySub P ss → EverySub Q ss
    EverySub-map nil h = tt
    EverySub-map (cons s ss) h = (Everywhere-map s h.0, EverySub-map ss h.1)

-- Two predicates that hold everywhere hold together everywhere.
module _ {B : Bitcoin} {K : MiniscriptKey} (P Q : Terminal B K → Ty → ExtData → Type 0) where
  abbrev pub Both : Terminal B K → Ty → ExtData → Type 0
  Both n t e = P n t e × Q n t e

  mutual
    pub Everywhere-Both :
        (ms : Miniscript B K) → Everywhere P ms → Everywhere Q ms → Everywhere Both ms
    Everywhere-Both (miniscript n t e) h g = ((h.0, g.0), EveryChild-Both n h.1 g.1)

    EveryChild-Both : (n : Terminal B K) → EveryChild P n → EveryChild Q n → EveryChild Both n
    EveryChild-Both (Terminal.inscribe_pre i s) h g = Everywhere-Both s h g
    EveryChild-Both (Terminal.inscribe_post i s) h g = Everywhere-Both s h g
    EveryChild-Both (Terminal.alt s) h g = Everywhere-Both s h g
    EveryChild-Both (Terminal.swap s) h g = Everywhere-Both s h g
    EveryChild-Both (Terminal.check s) h g = Everywhere-Both s h g
    EveryChild-Both (Terminal.dup_if s) h g = Everywhere-Both s h g
    EveryChild-Both (Terminal.verify s) h g = Everywhere-Both s h g
    EveryChild-Both (Terminal.non_zero s) h g = Everywhere-Both s h g
    EveryChild-Both (Terminal.zero_not_equal s) h g = Everywhere-Both s h g
    EveryChild-Both (Terminal.and_v l r) h g =
        (Everywhere-Both l h.0 g.0, Everywhere-Both r h.1 g.1)
    EveryChild-Both (Terminal.and_b l r) h g =
        (Everywhere-Both l h.0 g.0, Everywhere-Both r h.1 g.1)
    EveryChild-Both (Terminal.or_b l r) h g = (Everywhere-Both l h.0 g.0, Everywhere-Both r h.1 g.1)
    EveryChild-Both (Terminal.or_d l r) h g = (Everywhere-Both l h.0 g.0, Everywhere-Both r h.1 g.1)
    EveryChild-Both (Terminal.or_c l r) h g = (Everywhere-Both l h.0 g.0, Everywhere-Both r h.1 g.1)
    EveryChild-Both (Terminal.or_i l r) h g = (Everywhere-Both l h.0 g.0, Everywhere-Both r h.1 g.1)
    EveryChild-Both (Terminal.and_or x y z) h g =
        (Everywhere-Both x h.0 g.0, Everywhere-Both y h.1 g.1, Everywhere-Both z h.2 g.2)
    EveryChild-Both (Terminal.thresh k ss) h g = (h.0, h.1, EverySub-Both ss h.2 g.2)
    EveryChild-Both (Terminal.multi t) h g = h
    EveryChild-Both (Terminal.multi_a t) h g = h
    EveryChild-Both _ h g = tt

    EverySub-Both : (ss : Subs B K) → EverySub P ss → EverySub Q ss → EverySub Both ss
    EverySub-Both nil h g = tt
    EverySub-Both (cons s ss) h g = (Everywhere-Both s h.0 g.0, EverySub-Both ss h.1 g.1)

-- The same chain over any results of the parts, taken apart.
module _ {B : Bitcoin} {K : MiniscriptKey} (n : Terminal B K) (t : Ty) (e g : ExtData) where
  last_step :
      (t' : Ty) (r : Result ScriptContextError (Unit {0}))
      → (map_err Error.context_error r >> ok (miniscript n t' g)) ≡ ok (miniscript n t e)
      → (t' ≡ t) × (g ≡ e) × (r ≡ ok tt)
  last_step t' (ok u) h = (cc, cc, refl)
  last_step t' (err x) h = cc

  depth_step :
      (t' : Ty) (deep : Bool) (r : Result ScriptContextError (Unit {0}))
      → ((if deep then err Error.max_recursive_depth_exceeded else ok tt)
          >> (map_err Error.context_error r >> ok (miniscript n t' g)))
        ≡ ok (miniscript n t e)
      → (deep ≡ false) × (t' ≡ t) × (g ≡ e) × (r ≡ ok tt)
  depth_step t' true r h = cc
  depth_step t' false r h = let (a, b, d) = last_step t' r h in (refl, a, b, d)

  type_step :
      (r : Result ErrorKind Ty) (deep : Bool) (v : Ty → Result ScriptContextError (Unit {0}))
      → (map_err Error.type_check_error r >>= λ t'.
          ((if deep then err Error.max_recursive_depth_exceeded else ok tt)
            >> (map_err Error.context_error (v t') >> ok (miniscript n t' g))))
        ≡ ok (miniscript n t e)
      → (r ≡ ok t) × (g ≡ e) × (deep ≡ false) × (v t ≡ ok tt)
  type_step (ok t') deep v h =
      let (a, b, d, q) = depth_step t' deep (v t') h in
      (ap ok b, d, a, subst (λ x. v x ≡ ok tt) b q)
  type_step (err x) deep v h = cc

module _ {B : Bitcoin} {K : MiniscriptKey} (size : Inscription → ℕ) (c : Context) where
  pub record Accepted (n : Terminal B K) (t : Ty) (e : ExtData) : Type 0 where
    pub checked : Checked size (sig_type c) n t e
    pub height : e.tree_height % 2 ^ 32 ≤ max_recursion_depth
    pub valid : check_global_validity c (miniscript n t e) ≡ ok tt

  -- The conditions under which a node is accepted.
  pub from_ast-Accepted :
      (n : Terminal B K) (t : Ty) (e : ExtData)
      → from_ast size c n ≡ ok (miniscript n t e)
      → Accepted n t e
  unfolding from_ast
  from_ast-Accepted n t e h =
      let g = ext_check size (sig_type c) n in
      let (a, b, d, q) =
        type_step n t e g (type_check n) (ltb max_recursion_depth (g.tree_height % 2 ^ 32))
          (λ t'. check_global_validity c (miniscript n t' g)) h in
      record {
        checked = record { ty = a; ext = sym b };
        height = rw (← b) (ground arith);
        valid = subst (λ x. check_global_validity c (miniscript n t x) ≡ ok tt) b q;
      }

  pub IsBuilt-Accepted : (ms : Miniscript B K) → IsBuilt size c ms → Everywhere Accepted ms
  IsBuilt-Accepted = Everywhere-map _ _ from_ast-Accepted

  pub IsBuilt-IsAnnotated :
      (ms : Miniscript B K) → IsBuilt size c ms → IsAnnotated size (sig_type c) ms
  IsBuilt-IsAnnotated ms h =
      Everywhere-map _ _ (λ n t e a. Accepted.checked a) ms (IsBuilt-Accepted ms h)
