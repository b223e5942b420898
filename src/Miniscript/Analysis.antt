-- ===== src/Miniscript/Analysis.antt =====
-- src/miniscript/analyzable.rs: the checks for the guarantees of the library. The keys of a script are
-- those of `iter_pk` of src/miniscript/iter.rs; its iterators are recursions on the tree.
pub mod Guarantees
pub mod Signatures
use rust_miniscript.Prelude.{
  ℕ, Bool, true, false, not, ◌&&◌, ◌||◌, ◌==◌, List, [], ◌∷◌, ◌++◌, length, Result, ok, err, ◌>>=◌,
  ◌>>◌, if◌then◌else◌,
}
use rust_miniscript.Primitives.Locktime.{Bitcoin}
use rust_miniscript.Types.Fragment.{Ty}
use rust_miniscript.Miniscript.Ast.{
  MiniscriptKey, Terminal, Miniscript, miniscript, Subs, nil, cons, ty,
}
use rust_miniscript.Miniscript.Context.{Context}
use rust_miniscript.Policy.Lift.{within_resource_limits, has_mixed_timelocks, contains_raw_pkh}
use rust_miniscript.Policy.Concrete.{unique_len}

pub record ExtParams : Type 0 where
  pub top_unsafe : Bool
  pub resource_limitations : Bool
  pub timelock_mixing : Bool
  pub malleability : Bool
  pub repeated_pk : Bool
  pub raw_pkh : Bool

abbrev pub sane : ExtParams
sane = record {
  top_unsafe = false;
  resource_limitations = false;
  timelock_mixing = false;
  malleability = false;
  repeated_pk = false;
  raw_pkh = false;
}

abbrev pub insane : ExtParams
insane = record {
  top_unsafe = true;
  resource_limitations = true;
  timelock_mixing = true;
  malleability = true;
  repeated_pk = true;
  raw_pkh = false;
}

abbrev pub allow_all : ExtParams
allow_all = record {
  top_unsafe = true;
  resource_limitations = true;
  timelock_mixing = true;
  malleability = true;
  repeated_pk = true;
  raw_pkh = true;
}

pub data AnalysisError : Type 0 where
  sigless_branch repeated_pubkeys branch_exceed_resource_limits : AnalysisError
  height_timelock_combination malleable contains_raw : AnalysisError

module _ {B : Bitcoin} {K : MiniscriptKey} where
  unfoldable mutual
    pub iter_pk : Miniscript B K → List K.Pk
    iter_pk (miniscript n t e) = node_pks n

    pub node_pks : Terminal B K → List K.Pk
    node_pks (Terminal.pk_k pk) = pk ∷ []
    node_pks (Terminal.pk_h pk) = pk ∷ []
    node_pks (Terminal.multi t) = t.inner
    node_pks (Terminal.multi_a t) = t.inner
    node_pks (Terminal.inscribe_pre i s) = iter_pk s
    node_pks (Terminal.inscribe_post i s) = iter_pk s
    node_pks (Terminal.alt s) = iter_pk s
    node_pks (Terminal.swap s) = iter_pk s
    node_pks (Terminal.check s) = iter_pk s
    node_pks (Terminal.dup_if s) = iter_pk s
    node_pks (Terminal.verify s) = iter_pk s
    node_pks (Terminal.non_zero s) = iter_pk s
    node_pks (Terminal.zero_not_equal s) = iter_pk s
    node_pks (Terminal.and_v l r) = iter_pk l ++ iter_pk r
    node_pks (Terminal.and_b l r) = iter_pk l ++ iter_pk r
    node_pks (Terminal.and_or x y z) = iter_pk x ++ (iter_pk y ++ iter_pk z)
    node_pks (Terminal.or_b l r) = iter_pk l ++ iter_pk r
    node_pks (Terminal.or_d l r) = iter_pk l ++ iter_pk r
    node_pks (Terminal.or_c l r) = iter_pk l ++ iter_pk r
    node_pks (Terminal.or_i l r) = iter_pk l ++ iter_pk r
    node_pks (Terminal.thresh k ss) = subs_pks ss
    node_pks _ = []

    pub subs_pks : Subs B K → List K.Pk
    subs_pks nil = []
    subs_pks (cons s ss) = iter_pk s ++ subs_pks ss

  abbrev pub requires_sig : Miniscript B K → Bool
  requires_sig ms = (ty ms).mall.safe

  abbrev pub is_non_malleable : Miniscript B K → Bool
  is_non_malleable ms = (ty ms).mall.non_malleable

  module _ (same_key : K.Pk → K.Pk → Bool) (c : Context) where
    unfoldable pub has_repeated_keys : Miniscript B K → Bool
    unfolding iter_pk unique_len
    has_repeated_keys ms = not (unique_len same_key (iter_pk ms) == length (iter_pk ms))

    unfoldable pub sanity_check : Miniscript B K → Result AnalysisError (Unit {0})
    unfolding has_repeated_keys
    sanity_check ms =
        if not (requires_sig ms)
        then err AnalysisError.sigless_branch
        else if not (is_non_malleable ms)
        then err AnalysisError.malleable
        else if not (within_resource_limits c ms)
        then err AnalysisError.branch_exceed_resource_limits
        else if has_repeated_keys ms
        then err AnalysisError.repeated_pubkeys
        else if has_mixed_timelocks ms
        then err AnalysisError.height_timelock_combination
        else ok tt

    unfoldable pub ext_check : ExtParams → Miniscript B K → Result AnalysisError (Unit {0})
    unfolding has_repeated_keys contains_raw_pkh
    ext_check ext ms =
        if not ext.top_unsafe && not (requires_sig ms)
        then err AnalysisError.sigless_branch
        else if not ext.malleability && not (is_non_malleable ms)
        then err AnalysisError.malleable
        else if not ext.resource_limitations && not (within_resource_limits c ms)
        then err AnalysisError.branch_exceed_resource_limits
        else if not ext.repeated_pk && has_repeated_keys ms
        then err AnalysisError.repeated_pubkeys
        else if not ext.timelock_mixing && has_mixed_timelocks ms
        then err AnalysisError.height_timelock_combination
        else if not ext.raw_pkh && contains_raw_pkh ms
        then err AnalysisError.contains_raw
        else ok tt
