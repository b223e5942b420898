-- ===== src/Policy/Concrete/Safety.antt =====
-- What `is_safe_nonmalleable` of src/policy/concrete.rs says of signatures.
use rust_miniscript.Prelude.{
  ℕ, suc, ◌+◌, ◌-◌, ◌≤◌, Bool, true, false, not, ◌&&◌, ◌||◌, leb, from_bool, ◌≡◌, refl, ◌∙◌, arith,
}
use rust_miniscript.Primitives.Locktime.{Bitcoin}
use rust_miniscript.Miniscript.Ast.{MiniscriptKey}
use rust_miniscript.Policy.Semantic.{Policy}
use rust_miniscript.Policy.Concrete.{
  Concrete, Concretes, nil, cons, size, is_safe_nonmalleable, each_safe, safe_count, and_fold,
  or_fold,
}
use rust_miniscript.Policy.Concrete.Satisfied.{
  satisfied, all_satisfied, any_satisfied, satisfied_count,
}

or_step : (a h r : Bool) → ((a || not h) || not r) ≡ (a || not (h && r))
or_step true true r = refl
or_step true false r = refl
or_step false true r = refl
or_step false false r = refl

and_step : (a h r : Bool) → ((a && not h) && not r) ≡ (a && not (h || r))
and_step true true r = refl
and_step true false r = refl
and_step false true r = refl
and_step false false r = refl

count_step :
    (h : Bool) (s c n : ℕ) → s + c ≡ n → (from_bool (not h) + s) + (from_bool h + c) ≡ suc n
count_step true s c n e = omega (arith, e)
count_step false s c n e = omega (arith, e)

thresh_step : (n k s c : ℕ) → k ≤ n → s + c ≡ n → leb (n - k + 1) s ≡ not (leb k c)
thresh_step n k s c h e = ground (arith, h, e)

module _ {B : Bitcoin} {K : MiniscriptKey} where
  -- Everything but signatures and committed transactions is available.
  abbrev pub unsigned : Policy B K → Bool
  unsigned (Policy.key pk) = false
  unsigned (Policy.tx_template h) = false
  unsigned _ = true

  -- The policy has no `TRIVIAL`, and its thresholds do not need more than they have.
  abbrev mutual
    pub NeverTrivial : Concrete B K → Type 0
    NeverTrivial Concrete.trivial = ⊥
    NeverTrivial (Concrete.inscribe i sub) = NeverTrivial sub
    NeverTrivial (Concrete.and subs) = AllNeverTrivial subs
    NeverTrivial (Concrete.or weights subs) = AllNeverTrivial subs
    NeverTrivial (Concrete.thresh k subs) = (k ≤ size subs) × AllNeverTrivial subs
    NeverTrivial _ = Unit

    pub AllNeverTrivial : Concretes B K → Type 0
    AllNeverTrivial nil = Unit
    AllNeverTrivial (cons p ps) = NeverTrivial p × AllNeverTrivial ps

  mutual
    unfolding is_safe_nonmalleable satisfied

    safe-satisfied :
        (p : Concrete B K)
        → NeverTrivial p
        → (is_safe_nonmalleable p).0 ≡ not (satisfied unsigned p)
    safe-satisfied (Concrete.inscribe i sub) h = safe-satisfied sub h
    safe-satisfied (Concrete.and subs) h = and_fold-satisfied subs false true h
    safe-satisfied (Concrete.or weights subs) h = or_fold-satisfied subs true false true h
    safe-satisfied (Concrete.thresh k subs) h =
        thresh_step (size subs) k (safe_count (each_safe subs)) (satisfied_count unsigned subs) h.0
          (safe_count-satisfied subs h.1)
    safe-satisfied Concrete.trivial h = absurd h
    safe-satisfied _ h = refl

    and_fold-satisfied :
        (ps : Concretes B K) (a b : Bool)
        → AllNeverTrivial ps
        → (and_fold (a, b) (each_safe ps)).0 ≡ (a || not (all_satisfied unsigned ps))
    and_fold-satisfied nil true b h = refl
    and_fold-satisfied nil false b h = refl
    and_fold-satisfied (cons p ps) a b h =
        and_fold-satisfied ps (a || (is_safe_nonmalleable p).0) (b && (is_safe_nonmalleable p).1)
          h.1
        ∙ rw (safe-satisfied p h.0) (or_step a (satisfied unsigned p) (all_satisfied unsigned ps))

    or_fold-satisfied :
        (ps : Concretes B K) (a b c : Bool)
        → AllNeverTrivial ps
        → (or_fold (a, b, c) (each_safe ps)).0 ≡ (a && not (any_satisfied unsigned ps))
    or_fold-satisfied nil true b c h = refl
    or_fold-satisfied nil false b c h = refl
    or_fold-satisfied (cons p ps) a b c h =
        or_fold-satisfied ps (a && (is_safe_nonmalleable p).0) (b || (is_safe_nonmalleable p).0)
          (c && (is_safe_nonmalleable p).1) h.1
        ∙ rw (safe-satisfied p h.0) (and_step a (satisfied unsigned p) (any_satisfied unsigned ps))

    safe_count-satisfied :
        (ps : Concretes B K)
        → AllNeverTrivial ps
        → safe_count (each_safe ps) + satisfied_count unsigned ps ≡ size ps
    safe_count-satisfied nil h = refl
    safe_count-satisfied (cons p ps) h = rw (safe-satisfied p h.0) (
        count_step (satisfied unsigned p) (safe_count (each_safe ps)) (satisfied_count unsigned ps)
          (size ps) (safe_count-satisfied ps h.1))

  -- For a policy without `TRIVIAL` whose thresholds do not need more children than they have, the
  -- first answer of `is_safe_nonmalleable` is yes exactly where the policy cannot be satisfied by
  -- preimages and lock times alone, without a signature or a committed transaction.
  pub is_safe_nonmalleable-satisfied :
      (p : Concrete B K) → NeverTrivial p → (is_safe_nonmalleable p).0 ≡ not (satisfied unsigned p)
  is_safe_nonmalleable-satisfied p h = safe-satisfied p h
