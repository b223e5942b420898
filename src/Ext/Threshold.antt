-- ===== src/Ext/Threshold.antt =====
-- `ExtData::threshold` of src/miniscript/types/extra_props.rs.
pub mod Satisfaction
use rust_miniscript.Prelude.{
  ℕ, suc, ◌+◌, ◌-◌, max, Bool, true, false, Option, none, some, List, [], ◌∷◌, leb, ltb, from_bool,
  if◌then◌else◌,
}
use rust_miniscript.Ext.Timelock.{TimelockInfo, combine_threshold}
use rust_miniscript.Ext.Data.{SatData, ExtData, zip_with, sat, script_num_size}
use rust_miniscript.Ext.Combinators.{concat_after}

-- An entry of `sat_dissat_vec`.
pub record SatDissat : Type 0 where
  pub sat : Option SatData
  pub dissat : Option SatData

-- The sums and the maximum of the loop over the children.
pub record Totals : Type 0 where
  pub pk_cost : ℕ
  pub static_ops : ℕ
  pub timelocks : List TimelockInfo
  pub max_child_height : ℕ
  pub dissat_data : Option SatData
  pub sat_dissat_vec : List SatDissat

-- The loop, its vectors in the order of the children. Dissatisfying all children in order is the
-- only dissatisfaction.
unfoldable pub totals : ℕ → Option SatData → List ExtData → Totals
totals pk_cost dissat [] = record {
  pk_cost = pk_cost;
  static_ops = 0;
  timelocks = [];
  max_child_height = 0;
  dissat_data = dissat;
  sat_dissat_vec = [];
}
totals pk_cost dissat (sub ∷ subs) =
    let rest = totals (pk_cost + sub.pk_cost) (zip_with concat_after dissat sub.dissat_data) subs in
    record {
      pk_cost = rest.pk_cost;
      static_ops = sub.static_ops + rest.static_ops;
      timelocks = sub.timelock_info ∷ rest.timelocks;
      max_child_height = max sub.tree_height rest.max_child_height;
      dissat_data = rest.dissat_data;
      sat_dissat_vec =
          record { sat = sub.sat_data; dissat = sub.dissat_data } ∷ rest.sat_dissat_vec;
    }

-- The sort key is `Some(proj(sat) - proj(dissat))` in `isize` where both are there, and `None`,
-- which comes first, where they are not. `a - b <= c - d` is written as `a + d <= c + b`.
abbrev key_le_of :
    (SatData → ℕ) → Option SatData → Option SatData → Option SatData → Option SatData → Bool
key_le_of proj (some s) (some d) (some s') (some d') = leb (proj s + proj d') (proj s' + proj d)
key_le_of proj (some s) (some d) _ _ = false
key_le_of proj _ _ _ _ = true

unfoldable pub key_le : (SatData → ℕ) → SatDissat → SatDissat → Bool
key_le proj x y = key_le_of proj x.sat x.dissat y.sat y.dissat

-- `sort_by_key` is a stable sort: an element goes before the first one that its key does not exceed.
unfoldable pub insert : (SatData → ℕ) → SatDissat → List SatDissat → List SatDissat
insert proj x [] = x ∷ []
insert proj x (y ∷ ys) = if key_le proj x y then x ∷ y ∷ ys else y ∷ insert proj x ys

unfoldable pub sort_by_key : (SatData → ℕ) → List SatDissat → List SatDissat
unfolding insert key_le
sort_by_key proj [] = []
sort_by_key proj (x ∷ xs) = insert proj x (sort_by_key proj xs)

abbrev reverse_onto : List SatDissat → List SatDissat → List SatDissat
reverse_onto [] out = out
reverse_onto (x ∷ xs) out = reverse_onto xs (x ∷ out)

-- The `try_fold` over the reversed vector, from index `i` on: `sat` up to index `k`, then `dissat`.
unfoldable pub try_fold : (SatData → ℕ) → (ℕ → ℕ → ℕ) → ℕ → ℕ → ℕ → List SatDissat → Option ℕ
try_fold proj cmp k i acc [] = some acc
try_fold proj cmp k i acc (x ∷ xs) = elim (if leb i k then x.sat else x.dissat) [
  | none ↦ none
  | some d ↦ try_fold proj cmp k (suc i) (cmp acc (proj d)) xs
]

-- The five passes, each of which sorts the vector that the one before it left.
abbrev stack_cmp : ℕ → ℕ → ℕ
stack_cmp acc x = max acc (x + from_bool (ltb 0 acc))

abbrev all_some : Option ℕ → Option ℕ → Option ℕ → Option ℕ → Option ℕ → Option SatData
all_some (some count) (some size) (some script_sig) (some stack) (some op) =
    some (sat size count script_sig stack op)
all_some _ _ _ _ _ = none

unfoldable pub threshold_sat : ℕ → List SatDissat → Option SatData
unfolding sort_by_key try_fold
threshold_sat k vec =
    let v₁ = sort_by_key (λ d. d.max_witness_stack_count) vec in
    let v₂ = sort_by_key (λ d. d.max_witness_stack_size) v₁ in
    let v₃ = sort_by_key (λ d. d.max_script_sig_size) v₂ in
    let v₄ = sort_by_key (λ d. d.max_exec_stack_count) v₃ in
    let v₅ = sort_by_key (λ d. d.max_exec_op_count) v₄ in
    all_some (try_fold (λ d. d.max_witness_stack_count) ◌+◌ k 0 0 (reverse_onto v₁ []))
      (try_fold (λ d. d.max_witness_stack_size) ◌+◌ k 0 0 (reverse_onto v₂ []))
      (try_fold (λ d. d.max_script_sig_size) ◌+◌ k 0 0 (reverse_onto v₃ []))
      (try_fold (λ d. d.max_exec_stack_count) stack_cmp k 0 0 (reverse_onto v₄ []))
      (try_fold (λ d. d.max_exec_op_count) ◌+◌ k 0 0 (reverse_onto v₅ []))

unfoldable pub threshold : ℕ → ℕ → List ExtData → ExtData
unfolding threshold_sat totals combine_threshold
threshold k n subs =
    let t = totals (1 + script_num_size k) (some (sat 0 0 0 0 0)) subs in
    record {
      pk_cost = t.pk_cost + n - 1;
      has_free_verify = true;
      static_ops = t.static_ops + 1 + (n - 1);
      sat_data = threshold_sat k t.sat_dissat_vec;
      dissat_data = t.dissat_data;
      timelock_info = combine_threshold k t.timelocks;
      tree_height = t.max_child_height + 1;
    }
