-- ===== src/Policy/Concrete/Satisfied.antt =====
-- When a policy of src/policy/concrete.rs is satisfied, as its documentation says.
use rust_miniscript.Prelude.{
  ℕ, ◌+◌, ◌≤◌, Bool, true, false, ◌&&◌, ◌||◌, leb, from_bool, ◌≡◌, refl, inl, inr, Bool-cases,
  arith,
}
use rust_miniscript.Primitives.Locktime.{Bitcoin}
use rust_miniscript.Miniscript.Ast.{MiniscriptKey}
use rust_miniscript.Policy.Semantic.{Policy}
use rust_miniscript.Policy.Concrete.{Concrete, Concretes, nil, cons, size}

module _ {B : Bitcoin} {K : MiniscriptKey} (v : Policy B K → Bool) where
  unfoldable mutual
    -- `v` says which keys, preimages and lock times are available.
    pub satisfied : Concrete B K → Bool
    satisfied Concrete.unsatisfiable = false
    satisfied Concrete.trivial = true
    satisfied (Concrete.key pk) = v (Policy.key pk)
    satisfied (Concrete.after t) = v (Policy.after t)
    satisfied (Concrete.older t) = v (Policy.older t)
    satisfied (Concrete.sha256 h) = v (Policy.sha256 h)
    satisfied (Concrete.hash256 h) = v (Policy.hash256 h)
    satisfied (Concrete.ripemd160 h) = v (Policy.ripemd160 h)
    satisfied (Concrete.hash160 h) = v (Policy.hash160 h)
    satisfied (Concrete.tx_template h) = v (Policy.tx_template h)
    satisfied (Concrete.inscribe i sub) = satisfied sub
    satisfied (Concrete.and subs) = all_satisfied subs
    satisfied (Concrete.or weights subs) = any_satisfied subs
    satisfied (Concrete.thresh k subs) = leb k (satisfied_count subs)

    pub all_satisfied : Concretes B K → Bool
    all_satisfied nil = true
    all_satisfied (cons p ps) = satisfied p && all_satisfied ps

    pub any_satisfied : Concretes B K → Bool
    any_satisfied nil = false
    any_satisfied (cons p ps) = satisfied p || any_satisfied ps

    pub satisfied_count : Concretes B K → ℕ
    satisfied_count nil = 0
    satisfied_count (cons p ps) = from_bool (satisfied p) + satisfied_count ps

  satisfied_count-le : (ps : Concretes B K) → satisfied_count ps ≤ size ps
  unfolding satisfied
  satisfied_count-le nil = omega arith
  satisfied_count-le (cons p ps) = elim (Bool-cases (satisfied p)) [
    | inl h ↦ rw h (omega (arith, satisfied_count-le ps))
    | inr h ↦ rw h (omega (arith, satisfied_count-le ps))
  ]

  -- All are satisfied where as many are as there are, and some is where one is.
  pub all_satisfied-satisfied_count :
      (ps : Concretes B K) → all_satisfied ps ≡ leb (size ps) (satisfied_count ps)
  unfolding satisfied
  all_satisfied-satisfied_count nil = refl
  all_satisfied-satisfied_count (cons p ps) = elim (Bool-cases (satisfied p)) [
    | inl h ↦ rw (h, all_satisfied-satisfied_count ps) (ground arith)
    | inr h ↦ let most = satisfied_count-le ps in rw h (ground (arith, most))
  ]

  pub any_satisfied-satisfied_count :
      (ps : Concretes B K) → any_satisfied ps ≡ leb 1 (satisfied_count ps)
  unfolding satisfied
  any_satisfied-satisfied_count nil = refl
  any_satisfied-satisfied_count (cons p ps) = elim (Bool-cases (satisfied p)) [
    | inl h ↦ rw h (ground arith)
    | inr h ↦ rw (h, any_satisfied-satisfied_count ps) (ground arith)
  ]
