-- ===== src/Miniscript/Analysis/Guarantees.antt =====
-- What the scripts satisfy that src/miniscript/analyzable.rs accepts.
use rust_miniscript.Prelude.{
  ℕ, Bool, true, false, not, ◌&&◌, Result, ok, err, if◌then◌else◌, ◌≡◌, refl, sym, ◌∙◌,
}
use rust_miniscript.Primitives.Locktime.{Bitcoin}
use rust_miniscript.Miniscript.Ast.{MiniscriptKey, Inscription, Miniscript}
use rust_miniscript.Miniscript.Context.{Context}
use rust_miniscript.Miniscript.Analysis.{
  ExtParams, sane, AnalysisError, requires_sig, is_non_malleable, has_repeated_keys, ext_check,
}
use rust_miniscript.Policy.Semantic.{Policy, holds}
use rust_miniscript.Policy.Concrete.Safety.{unsigned}
use rust_miniscript.Miniscript.Build.{IsBuilt}
use rust_miniscript.Miniscript.Analysis.Signatures.{requires_sig-spendable}
use rust_miniscript.Policy.Lift.{
  within_resource_limits, has_mixed_timelocks, contains_raw_pkh, lift,
}
use rust_miniscript.Policy.Lift.Spending.{spendable, lift-holds}

passed :
    (b : Bool) (e : AnalysisError) (r : Result AnalysisError (Unit {0}))
    → (if b then err e else r) ≡ ok tt
    → (b ≡ false) × (r ≡ ok tt)
passed true e r h = cc
passed false e r h = (refl, h)

not_false : (b : Bool) → not b ≡ false → b ≡ true
not_false true h = refl
not_false false h = cc

no_branch : (b : Bool) → not b ≡ true → b ≡ false
no_branch true h = cc
no_branch false h = refl

module _ {B : Bitcoin} {K : MiniscriptKey} (same_key : K.Pk → K.Pk → Bool) (c : Context) where
  -- The six tests of `ext_check`, none of which finds anything.
  abbrev Passes : ExtParams → Miniscript B K → Type 0
  Passes ext ms =
      ((not ext.top_unsafe && not (requires_sig ms)) ≡ false)
      × ((not ext.malleability && not (is_non_malleable ms)) ≡ false)
      × ((not ext.resource_limitations && not (within_resource_limits c ms)) ≡ false)
      × ((not ext.repeated_pk && has_repeated_keys same_key c ms) ≡ false)
      × ((not ext.timelock_mixing && has_mixed_timelocks ms) ≡ false)
      × ((not ext.raw_pkh && contains_raw_pkh ms) ≡ false)

  ext_check-Passes :
      (ext : ExtParams) (ms : Miniscript B K) → ext_check same_key c ext ms ≡ ok tt → Passes ext ms
  unfolding ext_check
  ext_check-Passes ext ms h =
      let (signed, h1) =
        passed (not ext.top_unsafe && not (requires_sig ms)) AnalysisError.sigless_branch _ h in
      let (firm, h2) =
        passed (not ext.malleability && not (is_non_malleable ms)) AnalysisError.malleable _ h1 in
      let (within, h3) =
        passed (not ext.resource_limitations && not (within_resource_limits c ms))
          AnalysisError.branch_exceed_resource_limits _ h2 in
      let (distinct, h4) =
        passed (not ext.repeated_pk && has_repeated_keys same_key c ms)
          AnalysisError.repeated_pubkeys _ h3 in
      let (plain, h5) =
        passed (not ext.timelock_mixing && has_mixed_timelocks ms)
          AnalysisError.height_timelock_combination _ h4 in
      let (known, h6) =
        passed (not ext.raw_pkh && contains_raw_pkh ms) AnalysisError.contains_raw _ h5 in
      (signed, firm, within, distinct, plain, known)

  -- A tree that `from_ast` builds and `ext_check` accepts under the sane parameters is lifted without an
  -- error or a panic. The policy holds, whatever keys, preimages and lock times are available, exactly
  -- where some branch of the script can be taken, and it does not hold with all preimages and lock
  -- times but without a signature or a committed transaction.
  pub ext_check-unsigned :
      (size : Inscription → ℕ) (ms : Miniscript B K)
      → IsBuilt size c ms
      → ext_check same_key c sane ms ≡ ok tt
      → (p : Policy B K) × (lift c ms ≡ ok p)
        × ((v : Policy B K → Bool) → holds v p ≡ spendable v ms)
        × (holds unsigned p ≡ false)
  ext_check-unsigned size ms built h =
      let (signed, firm, within, distinct, plain, known) = ext_check-Passes sane ms h in
      let (p, lifts, means) =
        lift-holds c ms (not_false (within_resource_limits c ms) within) plain known in
      (
        p,
        lifts,
        means,
        means unsigned
            ∙ no_branch (spendable unsigned ms)
                (sym (requires_sig-spendable size c ms built) ∙ not_false (requires_sig ms) signed),
      )
