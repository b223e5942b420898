-- ===== src/Miniscript/Build.antt =====
-- `Miniscript::from_ast` of src/miniscript/mod.rs, the sizes that are computed from the tree, and
-- the trees that `from_ast` builds.
pub mod Annotated
pub mod Sane
pub mod Height
pub mod Refine
pub mod Size
use rust_miniscript.Prelude.{
  ℕ, suc, ◌+◌, ◌-◌, ◌%◌, ◌^◌, ◌≤◌, max, Bool, true, false, not, List, [], ◌∷◌, map, length, ltb,
  Result, ok, err, ◌>>=◌, ◌>>◌, from_bool, ◌≡◌, if◌then◌else◌,
}
use rust_miniscript.Primitives.Locktime.{Bitcoin}
use rust_miniscript.Primitives.Threshold.Valid.{IsValid}
use rust_miniscript.Types.Kinds.{ErrorKind}
use rust_miniscript.Types.Fragment.{Ty}
use rust_miniscript.Ext.Data.{ExtData, script_num_size}
use rust_miniscript.Miniscript.Ast.{
  MiniscriptKey, Inscription, Terminal, Miniscript, miniscript, Subs, nil, cons, node, ext, tys,
}
use rust_miniscript.Ext.Leaves.{SigType}
use rust_miniscript.Miniscript.Check.{type_check, ext_check, size_guesses}
use rust_miniscript.Miniscript.Context.{
  Context, ScriptContextError, sig_type, pk_len, check_global_validity,
}

-- src/miniscript/limits.rs.
abbrev pub max_pubkeys_per_multisig : ℕ
max_pubkeys_per_multisig = 20

abbrev pub max_pubkeys_in_checksigadd : ℕ
max_pubkeys_in_checksigadd = 999

abbrev pub max_recursion_depth : ℕ
max_recursion_depth = 402

pub data Error : Type 0 where
  type_check_error : ErrorKind → Error
  max_recursive_depth_exceeded : Error
  context_error : ScriptContextError → Error

-- `?` from one of the error types into `Error`.
abbrev pub map_err {ℓ} : {E : Type 0} {A : Type ℓ} → (E → Error) → Result E A → Result Error A
map_err f (ok a) = ok a
map_err f (err e) = err (f e)

module _ {B : Bitcoin} {K : MiniscriptKey} (size : Inscription → ℕ) (c : Context) where
  unfoldable pub from_ast : Terminal B K → Result Error (Miniscript B K)
  from_ast t = do
    ty ← map_err Error.type_check_error (type_check t)
    let ext = ext_check size (sig_type c) t
    let res = miniscript t ty ext
    if ltb max_recursion_depth (ext.tree_height % 2 ^ 32)
        then err Error.max_recursive_depth_exceeded
        else ok tt
    map_err Error.context_error (check_global_validity c res)
    ok res

-- A predicate on the node and the annotations of every subtree, where the thresholds of the tree
-- are in range, as their type makes sure.
module _ {B : Bitcoin} {K : MiniscriptKey} (P : Terminal B K → Ty → ExtData → Type 0) where
  abbrev mutual
    pub Everywhere : Miniscript B K → Type 0
    Everywhere (miniscript n t e) = P n t e × EveryChild n

    pub EveryChild : Terminal B K → Type 0
    EveryChild (Terminal.inscribe_pre i s) = Everywhere s
    EveryChild (Terminal.inscribe_post i s) = Everywhere s
    EveryChild (Terminal.alt s) = Everywhere s
    EveryChild (Terminal.swap s) = Everywhere s
    EveryChild (Terminal.check s) = Everywhere s
    EveryChild (Terminal.dup_if s) = Everywhere s
    EveryChild (Terminal.verify s) = Everywhere s
    EveryChild (Terminal.non_zero s) = Everywhere s
    EveryChild (Terminal.zero_not_equal s) = Everywhere s
    EveryChild (Terminal.and_v l r) = Everywhere l × Everywhere r
    EveryChild (Terminal.and_b l r) = Everywhere l × Everywhere r
    EveryChild (Terminal.and_or x y z) = Everywhere x × Everywhere y × Everywhere z
    EveryChild (Terminal.or_b l r) = Everywhere l × Everywhere r
    EveryChild (Terminal.or_d l r) = Everywhere l × Everywhere r
    EveryChild (Terminal.or_c l r) = Everywhere l × Everywhere r
    EveryChild (Terminal.or_i l r) = Everywhere l × Everywhere r
    EveryChild (Terminal.thresh k ss) = (1 ≤ k) × (k ≤ length (tys ss)) × EverySub ss
    EveryChild (Terminal.multi t) = IsValid max_pubkeys_per_multisig t
    EveryChild (Terminal.multi_a t) = IsValid max_pubkeys_in_checksigadd t
    EveryChild _ = Unit

    pub EverySub : Subs B K → Type 0
    EverySub nil = Unit
    EverySub (cons s ss) = Everywhere s × EverySub ss

module _ {B : Bitcoin} {K : MiniscriptKey} (size : Inscription → ℕ) (c : Context) where
  -- Every node of the tree is what `from_ast` made of it.
  abbrev pub IsBuilt : Miniscript B K → Type 0
  IsBuilt = Everywhere (λ n t e. from_ast size c n ≡ ok (miniscript n t e))

module _ {B : Bitcoin} {K : MiniscriptKey} (size : Inscription → ℕ) (sig : SigType) where
  -- The annotations of every node are those that the two `type_check`s compute.
  pub record Checked (n : Terminal B K) (t : Ty) (e : ExtData) : Type 0 where
    pub ty : type_check n ≡ ok t
    pub ext : e ≡ ext_check size sig n

  abbrev pub IsAnnotated : Miniscript B K → Type 0
  IsAnnotated = Everywhere Checked
