-- ===== src/Examples/Concretes.antt =====
-- The theorems on concrete policies at
-- `thresh(3,or(9@pk(1),1@and(older(10),pk(2))),after(100),sha256(7))`.
use rust_miniscript.Prelude.{Bool, false, not, ◌==◌, ==_iff, ◌↔◌, [], ◌∷◌, ok, ◌≡◌, refl, arith}
use rust_miniscript.Policy.Semantic.{Policy, holds}
use rust_miniscript.Policy.Concrete.{
  Concrete, Concretes, nil, cons, timelock_info, check_timelocks, is_valid, check_binary_ops,
  is_safe_nonmalleable, lift,
}
use rust_miniscript.Policy.Concrete.Satisfied.{satisfied}
use rust_miniscript.Policy.Concrete.Safety.{unsigned, is_safe_nonmalleable-satisfied}
use rust_miniscript.Policy.Concrete.Lifts.{lift-satisfied}
use rust_miniscript.Policy.Concrete.Inscriptions.{HasValidInscriptions}
use rust_miniscript.Policy.Concrete.Keys.{HasNoRepeats, is_valid-HasNoRepeats}
use rust_miniscript.Policy.Concrete.Valid.{is_valid-lift}
use rust_miniscript.Examples.Setting.{numbers, key_numbers}

abbrev two :
    Concrete numbers key_numbers → Concrete numbers key_numbers → Concretes numbers key_numbers
two p q = cons p (cons q nil)

abbrev delayed : Concrete numbers key_numbers
delayed = Concrete.and (two (Concrete.older (record { inner = 10 })) (Concrete.key 2))

abbrev vault : Concrete numbers key_numbers
vault = Concrete.thresh 3 (
    cons (Concrete.or (9 ∷ 1 ∷ []) (two (Concrete.key 1) delayed))
      (two (Concrete.after (record { inner = 100 })) (Concrete.sha256 7)))

is_safe_nonmalleable-satisfied_example :
    (is_safe_nonmalleable vault).0 ≡ not (satisfied unsigned vault)
is_safe_nonmalleable-satisfied_example =
    is_safe_nonmalleable-satisfied vault (omega arith, ((tt, ((tt, (tt, tt)), tt)), (tt, (tt, tt))))

lift-satisfied_example :
    (q : Policy numbers key_numbers) × (lift vault ≡ ok q)
    × ((v : Policy numbers key_numbers → Bool) → holds v q ≡ satisfied v vault)
unfolding check_timelocks rust_miniscript.Ext.Timelock.height_and_time
lift-satisfied_example =
    lift-satisfied vault ((omega arith, (tt, ((refl, (tt, (tt, tt))), tt))), (tt, (tt, tt))) refl

is_valid-lift_example :
    (q : Policy numbers key_numbers) × (lift vault ≡ ok q)
    × ((v : Policy numbers key_numbers → Bool) → holds v q ≡ satisfied v vault)
unfolding is_valid check_binary_ops rust_miniscript.Ext.Timelock.height_and_time
is_valid-lift_example = is_valid-lift (λ x y. x == y) vault refl refl

is_valid-HasNoRepeats_example : (is_valid (λ x y. x == y) vault ≡ ok tt) ↔ (
    HasValidInscriptions vault
    × ((timelock_info vault).contains_combination ≡ false)
    × HasNoRepeats vault)
is_valid-HasNoRepeats_example = is_valid-HasNoRepeats (λ x y. x == y) ==_iff vault
