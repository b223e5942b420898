-- ===== src/Examples/Lifting.antt =====
-- The theorems on lifting at `thresh(2,pk(1),s:pk(2),s:pk(103))` and `and_v(v:pk(0),after(100))`.
use rust_miniscript.Prelude.{Bool, not, ok, err, ◌≡◌, refl, if◌then◌else◌}
use rust_miniscript.Policy.Semantic.{Policy, normalized, holds}
use rust_miniscript.Miniscript.Context.{Context, check_local_validity}
use rust_miniscript.Policy.Lift.{
  Fault, LiftError, within_resource_limits, has_mixed_timelocks, contains_raw_pkh, lift,
}
use rust_miniscript.Policy.Lift.Recursion.{lifted}
use rust_miniscript.Policy.Lift.Runs.{lift-lifted}
use rust_miniscript.Policy.Lift.Spending.{spendable, lift-holds}
use rust_miniscript.Examples.Setting.{numbers, key_numbers}
use rust_miniscript.Examples.Scripts.{two_of_three, timed}

lift-lifted_example : lift Context.legacy two_of_three ≡ (
    if not (within_resource_limits Context.legacy two_of_three)
    then err (Fault.lift_error LiftError.branch_exceed_resource_limits)
    else if has_mixed_timelocks two_of_three
    then err (Fault.lift_error LiftError.height_timelock_combination)
    else if contains_raw_pkh two_of_three
    then err (Fault.lift_error LiftError.raw_descriptor_lift)
    else ok (normalized (lifted two_of_three)))
lift-lifted_example = lift-lifted Context.legacy two_of_three

lift-holds_example :
    (p : Policy numbers key_numbers) × (lift Context.legacy timed ≡ ok p)
    × ((v : Policy numbers key_numbers → Bool) → holds v p ≡ spendable v timed)
unfolding timed check_local_validity contains_raw_pkh rust_miniscript.Ext.Timelock.height_and_time
lift-holds_example = lift-holds Context.legacy timed refl refl refl
