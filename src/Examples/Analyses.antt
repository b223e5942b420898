-- ===== src/Examples/Analyses.antt =====
-- The theorems on the analysis at `and_v(v:pk(0),after(100))`.
use rust_miniscript.Prelude.{Bool, false, not, ◌==◌, ok, ◌≡◌, refl}
use rust_miniscript.Policy.Semantic.{Policy, holds}
use rust_miniscript.Policy.Lift.{lift}
use rust_miniscript.Policy.Lift.Spending.{spendable}
use rust_miniscript.Policy.Concrete.Safety.{unsigned}
use rust_miniscript.Miniscript.Context.{Context, check_local_validity}
use rust_miniscript.Miniscript.Analysis.{sane, requires_sig, ext_check}
use rust_miniscript.Miniscript.Analysis.Guarantees.{ext_check-unsigned}
use rust_miniscript.Miniscript.Analysis.Signatures.{requires_sig-spendable}
use rust_miniscript.Examples.Setting.{numbers, key_numbers, envelope_size}
use rust_miniscript.Examples.Scripts.{timed, timed-IsBuilt}

timed_accepted : ext_check (λ x y. x == y) Context.legacy sane timed ≡ ok tt
unfolding timed check_local_validity ext_check rust_miniscript.Ext.Timelock.height_and_time
timed_accepted = refl

requires_sig-spendable_example : requires_sig timed ≡ not (spendable unsigned timed)
requires_sig-spendable_example =
    requires_sig-spendable envelope_size Context.legacy timed timed-IsBuilt

ext_check-unsigned_example :
    (p : Policy numbers key_numbers) × (lift Context.legacy timed ≡ ok p)
    × ((v : Policy numbers key_numbers → Bool) → holds v p ≡ spendable v timed)
    × (holds unsigned p ≡ false)
ext_check-unsigned_example =
    ext_check-unsigned (λ x y. x == y) Context.legacy envelope_size timed timed-IsBuilt
      timed_accepted
