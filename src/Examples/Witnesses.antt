-- ===== src/Examples/Witnesses.antt =====
-- The theorems at concrete scripts, keys and lock times.
use rust_miniscript.Prelude.{
  ℕ, ◌+◌, ◌≤◌, List, if◌then◌else◌, ◌≡◌, ◌↔◌, refl, true, ◌&&◌, ◌||◌, some, none, [], ◌∷◌, ok, err,
  Result, ltb, inr, arith,
}
use rust_miniscript.Primitives.Threshold
use rust_miniscript.Primitives.Threshold.{Threshold, translate}
use rust_miniscript.Primitives.Threshold.Valid.{IsValid, Each, new-IsValid, translate-IsValid}
use rust_miniscript.Types.Correctness
use rust_miniscript.Types.Fragment
use rust_miniscript.Ext.Data.{ExtData, ext_true, ext_false, sat}
use rust_miniscript.Ext.Timelock.{TimelockInfo, new, combine_threshold}
use rust_miniscript.Ext.Timelock.Conflict.{
  any_combination, pair_conflict, contains_combination-combine_threshold,
}
use rust_miniscript.Ext.Threshold.{threshold}
use rust_miniscript.Ext.Threshold.Satisfaction.{threshold-unsatisfiable}
use rust_miniscript.Miniscript.Ast.{Terminal, ty, ext}
use rust_miniscript.Miniscript.Check.{type_check}
use rust_miniscript.Miniscript.Context.{Context}
use rust_miniscript.Miniscript.Build.{max_recursion_depth}
use rust_miniscript.Miniscript.Build.Sane.{IsBuilt-sanity_checks}
use rust_miniscript.Miniscript.Build.Height.{height, tree_height-bounded}
use rust_miniscript.Miniscript.Build.Refine.{Below, NodeBelow, RefinesBy, type_check-is_subtype}
use rust_miniscript.Miniscript.Build.Size.{script_size}
use rust_miniscript.Miniscript.Build.Size.Cost.{uncompressed, wide, script_size-pk_cost}
use rust_miniscript.Examples.Setting.{envelope_size}
use rust_miniscript.Examples.Scripts.{
  timed, timed-IsBuilt, two_of_three, two_of_three-IsBuilt, one_of_one, pk,
}

IsBuilt-sanity_checks_example :
    (Fragment.sanity_checks (ty timed) ≡ true) × (Correctness.sanity_checks (ty timed).corr ≡ true)
IsBuilt-sanity_checks_example =
    IsBuilt-sanity_checks envelope_size Context.legacy timed timed-IsBuilt

script_size-pk_cost_example :
    script_size envelope_size Context.legacy two_of_three + wide two_of_three
    ≡ (ext two_of_three).pk_cost + uncompressed two_of_three
script_size-pk_cost_example =
    script_size-pk_cost envelope_size Context.legacy two_of_three two_of_three-IsBuilt

tree_height-bounded_example :
    ((ext two_of_three).tree_height ≡ height two_of_three)
    × (height two_of_three ≤ max_recursion_depth)
tree_height-bounded_example =
    tree_height-bounded envelope_size Context.legacy two_of_three two_of_three-IsBuilt

pk-Below-one_of_one : Below (pk 1) one_of_one
unfolding pk one_of_one Fragment.is_subtype
pk-Below-one_of_one = refl

pk-Below : Below (pk 2) (pk 2)
unfolding pk Fragment.is_subtype
pk-Below = refl

type_check-is_subtype_example :
    RefinesBy
      (type_check (Terminal.or_i (pk 1) (pk 2)))
      (type_check (Terminal.or_i one_of_one (pk 2)))
type_check-is_subtype_example = type_check-is_subtype (NodeBelow.or_i pk-Below-one_of_one pk-Below)

-- Locks by height and by time.
abbrev locks : List TimelockInfo
locks = record new { csv_with_height = true } ∷ record new { csv_with_time = true } ∷ []

contains_combination-combine_threshold_example :
    (combine_threshold 2 locks).contains_combination
    ≡ any_combination locks || (ltb 1 2 && pair_conflict locks)
contains_combination-combine_threshold_example = contains_combination-combine_threshold 2 locks

-- The data of a key that can be signed for.
abbrev key_data : ExtData
key_data = record ext_true { sat_data = some (sat 73 1 73 1 0); dissat_data = some (sat 1 1 1 1 0) }

threshold-unsatisfiable_example : (threshold 1 2 (key_data ∷ ext_false ∷ [])).sat_data ≡ none
threshold-unsatisfiable_example =
    threshold-unsatisfiable key_data ext_false (sat 73 1 73 1 0) (sat 1 1 1 1 0) refl refl refl

abbrev two_of_two : Threshold ℕ
two_of_two = record { k = 2; inner = 5 ∷ 6 ∷ [] }

two_of_two-IsValid : IsValid 20 two_of_two
two_of_two-IsValid = record {
  positive = omega arith;
  within = omega arith;
  bounded = inr (omega arith);
}

new-IsValid_example : (Threshold.new 20 2 (5 ∷ 6 ∷ []) ≡ ok two_of_two) ↔ IsValid 20 two_of_two
new-IsValid_example = new-IsValid 20 two_of_two

abbrev small : ℕ → Result ℕ ℕ
small n = if ltb n 10 then ok (n + 1) else err n

abbrev translated : Threshold ℕ
translated = record { k = 2; inner = 6 ∷ 7 ∷ [] }

translate-IsValid_example : (translate small two_of_two ≡ ok translated) ↔ (
    IsValid 20 translated
    × (translated.k ≡ two_of_two.k)
    × Each small two_of_two.inner translated.inner)
translate-IsValid_example = translate-IsValid small 20 two_of_two translated two_of_two-IsValid
