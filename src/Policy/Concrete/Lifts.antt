-- ===== src/Policy/Concrete/Lifts.antt =====
-- What lifting makes of a concrete policy: src/policy/mod.rs.
use rust_miniscript.Prelude.{
  ℕ, suc, ◌+◌, ◌≤◌, Bool, true, false, ◌&&◌, ◌||◌, ltb, leb, ◌==◌, from_bool, List, ok, ◌≡◌, refl,
  ap, ap₂, sym, ◌∙◌, arith, reject-eq-ok,
}
use rust_miniscript.Primitives.Locktime.{Bitcoin}
use rust_miniscript.Primitives.Threshold.{validate_k_n}
use rust_miniscript.Ext.Timelock.{TimelockInfo, combine_threshold}
use rust_miniscript.Ext.Timelock.Conflict.{
  any_combination, pair_conflict, contains_combination-combine_threshold,
}
use rust_miniscript.Miniscript.Ast.{MiniscriptKey}
use rust_miniscript.Policy.Semantic.{Policy, Policies, len, normalized, holds, count}
use rust_miniscript.Policy.Semantic.Meaning.{normalized-holds}
use rust_miniscript.Policy.Concrete.{
  Concrete, Concretes, nil, cons, size, PolicyError, timelock_info, timelock_infos, check_timelocks,
  around, new_unwrap, lift, lift_match, lift_all,
}
use rust_miniscript.Policy.Concrete.Satisfied.{
  satisfied, satisfied_count, all_satisfied-satisfied_count, any_satisfied-satisfied_count,
}

or_false_left : (a b : Bool) → (a || b) ≡ false → a ≡ false
or_false_left true b h = cc
or_false_left false b h = refl

or_false_right : (a b : Bool) → (a || b) ≡ false → b ≡ false
or_false_right true b h = cc
or_false_right false b h = h

positive : (k : ℕ) → 1 ≤ k → (k == 0) ≡ false
positive k h = ground (arith, h)

in_range : (k n : ℕ) → k ≤ n → ltb n k ≡ false
in_range k n h = ground (arith, h)

no_combination :
    (k : ℕ) (ts : List TimelockInfo)
    → (combine_threshold k ts).contains_combination ≡ false
    → any_combination ts ≡ false
no_combination k ts h =
    or_false_left (any_combination ts) (ltb 1 k && pair_conflict ts)
      (sym (contains_combination-combine_threshold k ts) ∙ h)

module _ {B : Bitcoin} {K : MiniscriptKey} where
  -- Each `and` has two children, and each `or` at least two, as the parser makes sure.
  abbrev mutual
    pub HasArity : Concrete B K → Type 0
    HasArity (Concrete.inscribe i sub) = HasArity sub
    HasArity (Concrete.and subs) = (size subs ≡ 2) × AllHaveArity subs
    HasArity (Concrete.or weights subs) = (2 ≤ size subs) × AllHaveArity subs
    HasArity (Concrete.thresh k subs) = AllHaveArity subs
    HasArity _ = Unit

    pub AllHaveArity : Concretes B K → Type 0
    AllHaveArity nil = Unit
    AllHaveArity (cons p ps) = HasArity p × AllHaveArity ps

  -- A policy that means what the concrete one does, and children that do.
  abbrev Lifts : Concrete B K → Policy B K → Type 0
  Lifts p q = (v : Policy B K → Bool) → holds v q ≡ satisfied v p

  abbrev LiftsAll : Concretes B K → Policies B K → Type 0
  LiftsAll ps qs =
      (len qs ≡ size ps) × ((v : Policy B K → Bool) → count v qs ≡ satisfied_count v ps)

  new_unwrap-valid :
      (k : ℕ) (qs : Policies B K) → 1 ≤ k → k ≤ len qs → new_unwrap k qs ≡ ok (Policy.thresh k qs)
  unfolding validate_k_n
  new_unwrap-valid k qs h b = rw (new_unwrap, positive k h, in_range k (len qs) b) refl

  around-ok :
      (p : Concrete B K) (q : Policy B K)
      → (timelock_info p).contains_combination ≡ false
      → lift_match p ≡ ok q
      → Lifts p q
      → (r : Policy B K) × (around p (lift_match p) ≡ ok r) × Lifts p r
  unfolding around check_timelocks
  around-ok p q plain matched means =
      (normalized q, rw (plain, matched) refl, (λ v. normalized-holds v q ∙ means v))

  mutual
    unfolding lift_match satisfied holds timelock_info

    lift_match-ok :
        (p : Concrete B K)
        → HasArity p
        → (timelock_info p).contains_combination ≡ false
        → (q : Policy B K) × (lift_match p ≡ ok q) × Lifts p q
    lift_match-ok Concrete.unsatisfiable h plain = (Policy.unsatisfiable, refl, (λ v. refl))
    lift_match-ok Concrete.trivial h plain = (Policy.trivial, refl, (λ v. refl))
    lift_match-ok (Concrete.key pk) h plain = (Policy.key pk, refl, (λ v. refl))
    lift_match-ok (Concrete.after t) h plain = (Policy.after t, refl, (λ v. refl))
    lift_match-ok (Concrete.older t) h plain = (Policy.older t, refl, (λ v. refl))
    lift_match-ok (Concrete.sha256 x) h plain = (Policy.sha256 x, refl, (λ v. refl))
    lift_match-ok (Concrete.hash256 x) h plain = (Policy.hash256 x, refl, (λ v. refl))
    lift_match-ok (Concrete.ripemd160 x) h plain = (Policy.ripemd160 x, refl, (λ v. refl))
    lift_match-ok (Concrete.hash160 x) h plain = (Policy.hash160 x, refl, (λ v. refl))
    lift_match-ok (Concrete.tx_template x) h plain = (Policy.tx_template x, refl, (λ v. refl))
    lift_match-ok (Concrete.inscribe i sub) h plain =
        let (q, matched, means) = lift_match-ok sub h plain in
        let (r, done, meant) = around-ok sub q plain matched means in
        (Policy.inscribe i r, rw done refl, meant)
    lift_match-ok (Concrete.and subs) h plain =
        let (qs, made, (same, counts)) =
          lift_all-ok subs h.1 (no_combination (size subs) (timelock_infos subs) plain) in
        (
          Policy.thresh 2 qs,
          rw made (new_unwrap-valid 2 qs (omega arith) (omega (arith, same, h.0))),
          (λ v. ap (leb 2) (counts v) ∙ sym (all_satisfied-satisfied_count v subs ∙ rw h.0 refl)),
        )
    lift_match-ok (Concrete.or weights subs) h plain =
        let (qs, made, (same, counts)) =
          lift_all-ok subs h.1 (no_combination 1 (timelock_infos subs) plain) in
        (
          Policy.thresh 1 qs,
          rw made (new_unwrap-valid 1 qs (omega arith) (omega (arith, same, h.0))),
          (λ v. ap (leb 1) (counts v) ∙ sym (any_satisfied-satisfied_count v subs)),
        )
    lift_match-ok (Concrete.thresh k subs) h plain =
        let (qs, made, (same, counts)) =
          lift_all-ok subs h (no_combination k (timelock_infos subs) plain) in
        (Policy.thresh k qs, rw made refl, (λ v. ap (leb k) (counts v)))

    lift_all-ok :
        (ps : Concretes B K)
        → AllHaveArity ps
        → any_combination (timelock_infos ps) ≡ false
        → (qs : Policies B K) × (lift_all ps ≡ ok qs) × LiftsAll ps qs
    lift_all-ok nil h plain = (Policies.nil, refl, (refl, (λ v. refl)))
    lift_all-ok (cons p ps) h plain =
        let first =
          or_false_left (timelock_info p).contains_combination (any_combination (timelock_infos ps))
            plain in
        let others =
          or_false_right (timelock_info p).contains_combination
            (any_combination (timelock_infos ps)) plain in
        let (q, matched, means) = lift_match-ok p h.0 first in
        let (r, done, meant) = around-ok p q first matched means in
        let (rs, rest, (same, counts)) = lift_all-ok ps h.1 others in
        (
          Policies.cons r rs,
          rw (done, rest) refl,
          (ap suc same, (λ v. ap₂ (λ a n. from_bool a + n) (meant v) (counts v))),
        )

  -- A concrete policy that `check_timelocks` accepts, and whose `and`s have two children and `or`s at
  -- least two, is lifted without an error or a panic, and under all keys, preimages and lock times the
  -- result holds exactly where the concrete policy is satisfied.
  pub lift-satisfied :
      (p : Concrete B K)
      → HasArity p
      → check_timelocks p ≡ ok tt
      → (q : Policy B K) × (lift p ≡ ok q) × ((v : Policy B K → Bool) → holds v q ≡ satisfied v p)
  unfolding lift check_timelocks
  lift-satisfied p h plain =
      let plain_info =
        reject-eq-ok (timelock_info p).contains_combination PolicyError.height_timelock_combination
          plain in
      let (q, matched, means) = lift_match-ok p h plain_info in
      around-ok p q plain_info matched means
