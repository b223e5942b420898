-- ===== src/Policy/Semantic/Normal.antt =====
-- The shape of what `normalized` of src/policy/semantic.rs gives, and how many terminals it has.
use rust_miniscript.Prelude.{
  ℕ, ◌+◌, ◌-◌, ◌≤◌, Bool, true, false, not, ◌||◌, ltb, ◌==◌, ◌≡◌, refl, arith, Bool-cases, inl, inr,
}
use rust_miniscript.Primitives.Locktime.{Bitcoin}
use rust_miniscript.Miniscript.Ast.{MiniscriptKey, Inscription}
use rust_miniscript.Policy.Semantic.{
  Policy, Policies, nil, cons, len, append, is_trivial, is_unsatisfiable, trivial_count,
  unsatisfied_count, push, ret_subs, single_or, reason, normalized_thresh, normalized_inscribe,
  normalized, normalized_all,
}
use rust_miniscript.Policy.Semantic.Entails.{
  n_terminals, n_terminals_all, has_inscribe, any_has_inscribe,
}

or_false : (a b : Bool) → a || b ≡ false → (a ≡ false) × (b ≡ false)
or_false true b h = cc
or_false false b h = (refl, h)

module _ {B : Bitcoin} {K : MiniscriptKey} where
  abbrev pub is_other : Policy B K → Bool
  is_other p = not (is_trivial p || is_unsatisfiable p)

  -- No threshold outside of inscriptions has `Trivial` or `Unsatisfiable` as a child.
  abbrev mutual
    pub Clean : Policy B K → Type 0
    Clean (Policy.thresh k subs) = AllClean subs
    Clean _ = Unit

    pub AllClean : Policies B K → Type 0
    AllClean nil = Unit
    AllClean (cons p ps) = (is_other p ≡ true) × Clean p × AllClean ps

  abbrev EachClean : Policies B K → Type 0
  EachClean nil = Unit
  EachClean (cons p ps) = Clean p × EachClean ps

  append-AllClean : (ps qs : Policies B K) → AllClean ps → AllClean qs → AllClean (append ps qs)
  append-AllClean nil qs g h = h
  append-AllClean (cons p ps) qs g h = (g.0, g.1, append-AllClean ps qs g.2 h)

  push-AllClean :
      (a o : Bool) (p : Policy B K) (ret : Policies B K)
      → Clean p
      → AllClean ret
      → AllClean (push a o p ret)
  push-AllClean true true (Policy.thresh k subs) ret h g = (refl, h, g)
  push-AllClean true false (Policy.thresh k subs) ret h g = elim (Bool-cases (k == len subs)) [
    | inl same ↦ rw same (append-AllClean subs ret h g)
    | inr other ↦ rw other (refl, h, g)
  ]
  push-AllClean false true (Policy.thresh k subs) ret h g = elim (Bool-cases (k == 1)) [
    | inl same ↦ rw same (append-AllClean subs ret h g)
    | inr other ↦ rw other (refl, h, g)
  ]
  push-AllClean false false (Policy.thresh k subs) ret h g = (refl, h, g)
  push-AllClean a o Policy.trivial ret h g = g
  push-AllClean a o Policy.unsatisfiable ret h g = g
  push-AllClean a o _ ret h g = (refl, h, g)

  ret_subs-AllClean : (a o : Bool) (ps : Policies B K) → EachClean ps → AllClean (ret_subs a o ps)
  unfolding ret_subs
  ret_subs-AllClean a o nil h = tt
  ret_subs-AllClean a o (cons p ps) h =
      push-AllClean a o p (ret_subs a o ps) h.0 (ret_subs-AllClean a o ps h.1)

  single-Clean :
      (ret : Policies B K) (k : ℕ) → AllClean ret → Clean (single_or ret (Policy.thresh k ret))
  single-Clean nil k h = h
  single-Clean (cons p nil) k h = h.1
  single-Clean (cons p (cons q ps)) k h = h

  reason-Clean : (m : ℕ) (a o : Bool) (ret : Policies B K) → AllClean ret → Clean (reason m a o ret)
  unfolding reason
  reason-Clean m a o ret h = elim (Bool-cases (m == 0)) [
    | inl none ↦ rw none tt
    | inr positive ↦ elim (Bool-cases (ltb (len ret) m)) [
      | inl few ↦ rw (positive, few) tt
      | inr enough ↦ rw (positive, enough) (single-Clean ret _ h)
    ]
  ]

  normalized_inscribe-Clean : (i : Inscription) (p : Policy B K) → Clean (normalized_inscribe i p)
  normalized_inscribe-Clean i Policy.unsatisfiable = tt
  normalized_inscribe-Clean i _ = tt

  mutual
    unfolding normalized normalized_thresh

    pub normalized-Clean : (p : Policy B K) → Clean (normalized p)
    normalized-Clean (Policy.thresh k subs) =
        reason-Clean _ _ _ _ (ret_subs-AllClean _ _ _ (normalized_all-EachClean subs))
    normalized-Clean (Policy.inscribe i sub) = normalized_inscribe-Clean i (normalized sub)
    normalized-Clean _ = tt

    normalized_all-EachClean : (ps : Policies B K) → EachClean (normalized_all ps)
    normalized_all-EachClean nil = tt
    normalized_all-EachClean (cons p ps) = (normalized-Clean p, normalized_all-EachClean ps)

  n_terminals-append :
      (ps qs : Policies B K)
      → n_terminals_all (append ps qs) ≡ n_terminals_all ps + n_terminals_all qs
  unfolding n_terminals
  n_terminals-append nil qs = omega arith
  n_terminals-append (cons p ps) qs = omega (arith, n_terminals-append ps qs)

  n_terminals-push :
      (a o : Bool) (p : Policy B K) (ret : Policies B K)
      → n_terminals_all (push a o p ret) ≤ n_terminals p + n_terminals_all ret
  unfolding n_terminals
  n_terminals-push true true (Policy.thresh k subs) ret = omega arith
  n_terminals-push true false (Policy.thresh k subs) ret =
      ground (arith, n_terminals-append subs ret)
  n_terminals-push false true (Policy.thresh k subs) ret =
      ground (arith, n_terminals-append subs ret)
  n_terminals-push false false (Policy.thresh k subs) ret = omega arith
  n_terminals-push a o Policy.trivial ret = omega arith
  n_terminals-push a o _ ret = omega arith

  n_terminals-ret_subs :
      (a o : Bool) (ps : Policies B K) → n_terminals_all (ret_subs a o ps) ≤ n_terminals_all ps
  unfolding n_terminals ret_subs
  n_terminals-ret_subs a o nil = omega arith
  n_terminals-ret_subs a o (cons p ps) =
      omega (arith, n_terminals-push a o p (ret_subs a o ps), n_terminals-ret_subs a o ps)

  n_terminals-single :
      (ret : Policies B K) (k : ℕ)
      → n_terminals (single_or ret (Policy.thresh k ret)) ≤ n_terminals_all ret
  unfolding n_terminals
  n_terminals-single nil k = omega arith
  n_terminals-single (cons p nil) k = omega arith
  n_terminals-single (cons p (cons q ps)) k = omega arith

  n_terminals-reason :
      (m : ℕ) (a o : Bool) (ret : Policies B K)
      → n_terminals (reason m a o ret) ≤ n_terminals_all ret
  unfolding reason n_terminals
  n_terminals-reason m a o ret = elim (Bool-cases (m == 0)) [
    | inl none ↦ rw none (omega arith)
    | inr positive ↦ elim (Bool-cases (ltb (len ret) m)) [
      | inl few ↦ rw (positive, few) (omega arith)
      | inr enough ↦ rw (positive, enough) (n_terminals-single ret _)
    ]
  ]

  n_terminals-inscribe :
      (i : Inscription) (p : Policy B K) → n_terminals (normalized_inscribe i p) ≤ 1
  unfolding n_terminals
  n_terminals-inscribe i Policy.unsatisfiable = omega arith
  n_terminals-inscribe i _ = omega arith

  mutual
    unfolding normalized normalized_thresh n_terminals

    pub n_terminals-normalized : (p : Policy B K) → n_terminals (normalized p) ≤ n_terminals p
    n_terminals-normalized (Policy.thresh k subs) = omega (
      arith,
      n_terminals-reason _ _ _ (ret_subs _ _ (normalized_all subs)),
      n_terminals-ret_subs _ _ (normalized_all subs),
      n_terminals_all-normalized subs,
    )
    n_terminals-normalized (Policy.inscribe i sub) = n_terminals-inscribe i (normalized sub)
    n_terminals-normalized _ = omega arith

    n_terminals_all-normalized :
        (ps : Policies B K) → n_terminals_all (normalized_all ps) ≤ n_terminals_all ps
    n_terminals_all-normalized nil = omega arith
    n_terminals_all-normalized (cons p ps) =
        omega (arith, n_terminals-normalized p, n_terminals_all-normalized ps)

  -- No inscriptions, as a predicate.
  abbrev pub Plain : Policy B K → Type 0
  Plain p = has_inscribe p ≡ false

  abbrev pub AllPlain : Policies B K → Type 0
  AllPlain ps = any_has_inscribe ps ≡ false

  pub cons-AllPlain :
      (p : Policy B K) (ps : Policies B K) → Plain p → AllPlain ps → AllPlain (cons p ps)
  unfolding has_inscribe
  cons-AllPlain p ps h g = rw (h, g) refl

  pub AllPlain-cons :
      (p : Policy B K) (ps : Policies B K) → AllPlain (cons p ps) → Plain p × AllPlain ps
  unfolding has_inscribe
  AllPlain-cons p ps h = or_false (has_inscribe p) (any_has_inscribe ps) h

  append-AllPlain : (ps qs : Policies B K) → AllPlain ps → AllPlain qs → AllPlain (append ps qs)
  append-AllPlain nil qs g h = h
  append-AllPlain (cons p ps) qs g h =
      let (x, y) = AllPlain-cons p ps g in cons-AllPlain p _ x (append-AllPlain ps qs y h)

  push-AllPlain :
      (a o : Bool) (p : Policy B K) (ret : Policies B K)
      → Plain p
      → AllPlain ret
      → AllPlain (push a o p ret)
  unfolding has_inscribe
  push-AllPlain true true (Policy.thresh k subs) ret h g =
      cons-AllPlain (Policy.thresh k subs) ret h g
  push-AllPlain true false (Policy.thresh k subs) ret h g = elim (Bool-cases (k == len subs)) [
    | inl same ↦ rw same (append-AllPlain subs ret h g)
    | inr other ↦ rw other (cons-AllPlain (Policy.thresh k subs) ret h g)
  ]
  push-AllPlain false true (Policy.thresh k subs) ret h g = elim (Bool-cases (k == 1)) [
    | inl same ↦ rw same (append-AllPlain subs ret h g)
    | inr other ↦ rw other (cons-AllPlain (Policy.thresh k subs) ret h g)
  ]
  push-AllPlain false false (Policy.thresh k subs) ret h g =
      cons-AllPlain (Policy.thresh k subs) ret h g
  push-AllPlain a o Policy.trivial ret h g = g
  push-AllPlain a o Policy.unsatisfiable ret h g = g
  push-AllPlain a o (Policy.inscribe i p) ret h g = cc
  push-AllPlain a o _ ret h g = g

  ret_subs-AllPlain : (a o : Bool) (ps : Policies B K) → AllPlain ps → AllPlain (ret_subs a o ps)
  unfolding ret_subs
  ret_subs-AllPlain a o nil h = h
  ret_subs-AllPlain a o (cons p ps) h =
      let (x, y) = AllPlain-cons p ps h in
      push-AllPlain a o p (ret_subs a o ps) x (ret_subs-AllPlain a o ps y)

  single-Plain :
      (ret : Policies B K) (k : ℕ) → AllPlain ret → Plain (single_or ret (Policy.thresh k ret))
  unfolding has_inscribe
  single-Plain nil k h = h
  single-Plain (cons p nil) k h = (AllPlain-cons p nil h).0
  single-Plain (cons p (cons q ps)) k h = h

  reason-Plain : (m : ℕ) (a o : Bool) (ret : Policies B K) → AllPlain ret → Plain (reason m a o ret)
  unfolding reason has_inscribe
  reason-Plain m a o ret h = elim (Bool-cases (m == 0)) [
    | inl none ↦ rw none refl
    | inr positive ↦ elim (Bool-cases (ltb (len ret) m)) [
      | inl few ↦ rw (positive, few) refl
      | inr enough ↦ rw (positive, enough) (single-Plain ret _ h)
    ]
  ]

  normalized_thresh-Plain :
      (k : ℕ) (ps : Policies B K) → AllPlain ps → Plain (normalized_thresh k ps)
  unfolding normalized_thresh
  normalized_thresh-Plain k ps h =
      let n = len ps - unsatisfied_count ps - trivial_count ps in
      let m = k - trivial_count ps in
      reason-Plain m (m == n) (m == 1) (ret_subs (m == n) (m == 1) ps)
        (ret_subs-AllPlain (m == n) (m == 1) ps h)

  mutual
    unfolding normalized has_inscribe

    pub normalized-Plain : (p : Policy B K) → Plain p → Plain (normalized p)
    normalized-Plain (Policy.thresh k subs) h =
        normalized_thresh-Plain k (normalized_all subs) (normalized_all-AllPlain subs h)
    normalized-Plain (Policy.inscribe i sub) h = cc
    normalized-Plain _ h = h

    normalized_all-AllPlain : (ps : Policies B K) → AllPlain ps → AllPlain (normalized_all ps)
    normalized_all-AllPlain nil h = h
    normalized_all-AllPlain (cons p ps) h =
        let (x, y) = AllPlain-cons p ps h in
        cons-AllPlain (normalized p) (normalized_all ps) (normalized-Plain p x)
          (normalized_all-AllPlain ps y)
