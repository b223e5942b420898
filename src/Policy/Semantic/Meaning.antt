-- ===== src/Policy/Semantic/Meaning.antt =====
-- What a policy means, before and after `normalized` of src/policy/semantic.rs.
use rust_miniscript.Prelude.{
  ==_iff, ℕ, suc, ◌+◌, ◌-◌, ◌≤◌, Bool, true, false, not, ◌&&◌, ◌||◌, ltb, leb, ◌==◌, from_bool,
  if◌then◌else◌, ◌≡◌, refl, ap, ap₂, ◌∙◌, arith, zero, Bool-cases, inl, inr,
}
use rust_miniscript.Primitives.Locktime.{Bitcoin}
use rust_miniscript.Miniscript.Ast.{MiniscriptKey, Inscription}
use rust_miniscript.Policy.Semantic.{
  Policy, Policies, nil, cons, len, append, is_trivial, is_unsatisfiable, trivial_count,
  unsatisfied_count, push, ret_subs, single_or, reason, normalized_thresh, normalized_inscribe,
  normalized, normalized_all, holds, count,
}

-- `l` is at most `c` exactly where `m` is at most `d`.
abbrev BothReach : ℕ → ℕ → ℕ → ℕ → Type 0
BothReach l c m d = (l ≤ c → m ≤ d) × (m ≤ d → l ≤ c)

both_refl : (l c : ℕ) → BothReach l c l c
both_refl l c = ((λ h. h), (λ h. h))

from_bool_le : (x : Bool) → from_bool x ≤ 1
from_bool_le x = ground arith

both_step :
    (x : Bool) (l c m d : ℕ)
    → c ≤ l
    → d ≤ m
    → BothReach l c m d
    → BothReach (suc l) (from_bool x + c) (1 + m) (from_bool x + d)
both_step x l c m d b e (f, g) =
    let u = from_bool_le x in
    (
      (λ h. let k = f (omega (arith, h, u, b)) in omega (arith, k, h, u, b)),
      (λ h. let k = g (omega (arith, h, u, e)) in omega (arith, k, h, u, e)),
    )

both_and :
    (n s l c m d k : ℕ)
    → (k == n) ≡ true
    → s ≤ n
    → c ≤ l
    → d ≤ m
    → BothReach l c m d
    → BothReach (n + l) (s + c) (1 + m) (from_bool (leb k s) + d)
both_and n s l c m d k same a b e (f, g) =
    let u = from_bool_le (leb k s) in
    (
      (λ h. let j = f (omega (arith, h, a, b)) in ground (arith, j, h, a, b, same)),
      (λ h. let j = g (omega (arith, h, u, e)) in ground (arith, j, h, u, e, same)),
    )

both_one :
    (x : Bool) (c d : ℕ) → BothReach 1 c 1 d → BothReach 1 (from_bool x + c) 1 (from_bool x + d)
both_one true c d f = ((λ h. omega arith), (λ h. omega arith))
both_one false c d (f, g) =
    ((λ h. omega (arith, f (omega (arith, h)))), (λ h. omega (arith, g (omega (arith, h)))))

-- The test on the remaining children decides the test on all of them.
conclude :
    (k t c m l r q : ℕ)
    → m ≡ k - t
    → (1 ≤ m → m ≤ l → q ≤ r → m ≤ c)
    → (1 ≤ m → m ≤ c → (m ≤ l) × (q ≤ r))
    → (m == 0) || (not (ltb l m) && leb q r) ≡ leb k (t + c)
conclude k t c m l r q e f g = elim (Bool-cases (m == 0)) [
  | inl none ↦ ground (arith, none)
  | inr some ↦ elim (Bool-cases (leb m c)) [
    | inl reached ↦
        let (x, y) = g (ground (arith, some)) (ground (arith, reached)) in
        ground (arith, x, y, e, some, reached)
    | inr missed ↦ elim (Bool-cases (not (ltb l m) && leb q r)) [
      | inl fine ↦
          let j = f (ground (arith, some)) (ground (arith, fine)) (ground (arith, fine)) in
          ground (arith, missed, j)
      | inr bad ↦ rw (some, bad) (ground (arith, missed, some))
    ]
  ]
]

both_skip : (l c m d : ℕ) → BothReach l c m d → BothReach l c (0 + m) (0 + d)
both_skip l c m d (f, g) = ((λ h. omega (arith, f h)), (λ h. g (omega (arith, h))))

both_skip_one : (c d : ℕ) → BothReach 1 c 1 d → BothReach 1 c 1 (0 + d)
both_skip_one c d (f, g) = ((λ h. omega (arith, f h)), (λ h. g (omega (arith, h))))

both_or :
    (s c d k : ℕ)
    → (k == 1) ≡ true
    → BothReach 1 c 1 d
    → BothReach 1 (s + c) 1 (from_bool (leb k s) + d)
both_or zero c d k same (f, g) = (
  (λ h. let j = f (omega (arith, h)) in omega (arith, j)),
  (λ h. let j = g (ground (arith, h, same)) in omega (arith, j)),
)
both_or (suc s) c d k same f = ((λ h. ground (arith, same)), (λ h. omega arith))

module _ {B : Bitcoin} {K : MiniscriptKey} where
  -- Every threshold that is not under an inscription has children.
  abbrev mutual
    pub HasSubs : Policy B K → Type 0
    HasSubs (Policy.thresh k subs) = (1 ≤ len subs) × AllHasSubs subs
    HasSubs _ = Unit

    pub AllHasSubs : Policies B K → Type 0
    AllHasSubs nil = Unit
    AllHasSubs (cons p ps) = HasSubs p × AllHasSubs ps

  append-AllHasSubs :
      (ps qs : Policies B K) → AllHasSubs ps → AllHasSubs qs → AllHasSubs (append ps qs)
  append-AllHasSubs nil qs g h = h
  append-AllHasSubs (cons p ps) qs g h = (g.0, append-AllHasSubs ps qs g.1 h)

  len-append : (ps qs : Policies B K) → len (append ps qs) ≡ len ps + len qs
  len-append nil qs = omega arith
  len-append (cons p ps) qs = omega (arith, len-append ps qs)

  abbrev is_other : Policy B K → Bool
  is_other p = not (is_trivial p || is_unsatisfiable p)

  abbrev others_len : Policies B K → ℕ
  others_len nil = 0
  others_len (cons p ps) = from_bool (is_other p) + others_len ps

  others-len :
      (ps : Policies B K) → len ps ≡ unsatisfied_count ps + trivial_count ps + others_len ps
  others-len nil = omega arith
  others-len (cons Policy.trivial ps) = omega (arith, others-len ps)
  others-len (cons Policy.unsatisfiable ps) = omega (arith, others-len ps)
  others-len (cons _ ps) = omega (arith, others-len ps)

  module _ (v : Policy B K → Bool) where
    abbrev others_count : Policies B K → ℕ
    others_count nil = 0
    others_count (cons p ps) = from_bool (is_other p && holds v p) + others_count ps

    count-append : (ps qs : Policies B K) → count v (append ps qs) ≡ count v ps + count v qs
    unfolding holds
    count-append nil qs = omega arith
    count-append (cons p ps) qs = omega (arith, count-append ps qs)

    count-others : (ps : Policies B K) → count v ps ≡ trivial_count ps + others_count ps
    unfolding holds
    count-others nil = omega arith
    count-others (cons Policy.trivial ps) = omega (arith, count-others ps)
    count-others (cons Policy.unsatisfiable ps) = omega (arith, count-others ps)
    count-others (cons _ ps) = omega (arith, count-others ps)

    count-bounded : (ps : Policies B K) → count v ps ≤ len ps
    unfolding holds
    count-bounded nil = omega arith
    count-bounded (cons p ps) = ground (arith, count-bounded ps)

    others_count-bounded : (ps : Policies B K) → others_count ps ≤ others_len ps
    others_count-bounded nil = omega arith
    others_count-bounded (cons p ps) = ground (arith, others_count-bounded ps)

    -- A threshold that is neither `and` nor `or`, or has one child: nothing is flattened.
    same_kind :
        (a : Bool) (ps : Policies B K)
        → (len (ret_subs a a ps) ≡ others_len ps) × (count v (ret_subs a a ps) ≡ others_count ps)
    unfolding ret_subs holds
    same_kind a nil = (refl, refl)
    same_kind true (cons (Policy.thresh k subs) ps) =
        let (l, c) = same_kind true ps in (omega arith, omega arith)
    same_kind false (cons (Policy.thresh k subs) ps) =
        let (l, c) = same_kind false ps in (omega arith, omega arith)
    same_kind a (cons _ ps) = let (l, c) = same_kind a ps in (omega arith, omega arith)

    -- The children of a child of an `and` that is an `and` itself hold together where it does.
    and_kind :
        (ps : Policies B K)
        → AllHasSubs ps
        → (others_len ps ≤ len (ret_subs true false ps))
          × BothReach
              (len (ret_subs true false ps))
              (count v (ret_subs true false ps))
              (others_len ps)
              (others_count ps)
    unfolding ret_subs holds
    and_kind nil h = (omega arith, both_refl 0 0)
    and_kind (cons Policy.trivial ps) h =
        let (l, c) = and_kind ps h.1 in (omega (arith, l), both_skip _ _ _ _ c)
    and_kind (cons Policy.unsatisfiable ps) h =
        let (l, c) = and_kind ps h.1 in (omega (arith, l), both_skip _ _ _ _ c)
    and_kind (cons (Policy.thresh k subs) ps) h =
        let (l, c) = and_kind ps h.1 in
        let b = count-bounded (ret_subs true false ps) in
        let d = others_count-bounded ps in
        elim (Bool-cases (k == len subs)) [
          | inl same ↦
              rw (same, len-append, count-append)
                (
                  omega (arith, l, h.0.0),
                  both_and (len subs) (count v subs) _ _ _ _ k same (count-bounded subs) b d c,
                )
          | inr other ↦ rw other (omega (arith, l), both_step (leb k (count v subs)) _ _ _ _ b d c)
        ]
    and_kind (cons _ ps) h =
        let (l, c) = and_kind ps h.1 in
        let b = count-bounded (ret_subs true false ps) in
        let d = others_count-bounded ps in (omega (arith, l), both_step _ _ _ _ _ b d c)

    -- One of the children of a child of an `or` that is an `or` itself holds where it does.
    or_kind :
        (ps : Policies B K)
        → AllHasSubs ps
        → (others_len ps ≤ len (ret_subs false true ps))
          × BothReach 1 (count v (ret_subs false true ps)) 1 (others_count ps)
    unfolding ret_subs holds
    or_kind nil h = (omega arith, both_refl 1 0)
    or_kind (cons Policy.trivial ps) h =
        let (l, c) = or_kind ps h.1 in (omega (arith, l), both_skip_one _ _ c)
    or_kind (cons Policy.unsatisfiable ps) h =
        let (l, c) = or_kind ps h.1 in (omega (arith, l), both_skip_one _ _ c)
    or_kind (cons (Policy.thresh k subs) ps) h =
        let (l, c) = or_kind ps h.1 in
        elim (Bool-cases (k == 1)) [
          | inl same ↦
              rw (same, len-append, count-append)
                (omega (arith, l, h.0.0), both_or (count v subs) _ _ k same c)
          | inr other ↦ rw other (omega (arith, l), both_one (leb k (count v subs)) _ _ c)
        ]
    or_kind (cons _ ps) h = let (l, c) = or_kind ps h.1 in (omega (arith, l), both_one _ _ _ c)

    holds-trivial : holds v Policy.trivial ≡ true
    unfolding holds
    holds-trivial = refl

    holds-unsatisfiable : holds v Policy.unsatisfiable ≡ false
    unfolding holds
    holds-unsatisfiable = refl

    one_child : (x : Bool) → x ≡ leb 1 (from_bool x + 0)
    one_child true = refl
    one_child false = refl

    single-holds :
        (ret : Policies B K) (k : ℕ)
        → (len ret ≡ 1 → k ≡ 1)
        → holds v (single_or ret (Policy.thresh k ret)) ≡ leb k (count v ret)
    unfolding holds
    single-holds nil k h = refl
    single-holds (cons p nil) k h = rw (h refl) (one_child (holds v p))
    single-holds (cons p (cons q ps)) k h = refl

    abbrev needed : ℕ → Bool → Bool → ℕ → ℕ
    needed m is_and is_or l = if is_and then l else if is_or then 1 else m

    -- What the policy that `normalized` ends in means.
    reason-holds :
        (m : ℕ) (is_and is_or : Bool) (ret : Policies B K)
        → (1 ≤ m → m ≤ len ret → len ret ≡ 1 → needed m is_and is_or (len ret) ≡ 1)
        → holds v (reason m is_and is_or ret)
          ≡ (m == 0)
            || (not (ltb (len ret) m) && leb (needed m is_and is_or (len ret)) (count v ret))
    unfolding reason
    reason-holds m is_and is_or ret h = elim (Bool-cases (m == 0)) [
      | inl none ↦ rw none holds-trivial
      | inr positive ↦ elim (Bool-cases (ltb (len ret) m)) [
        | inl few ↦ rw (positive, few) holds-unsatisfiable
        | inr enough ↦
            rw (positive, enough)
              (single-holds ret _ (h (ground (arith, positive)) (ground (arith, enough))))
      ]
    ]

    thresh-holds :
        (k : ℕ) (ps : Policies B K)
        → AllHasSubs ps
        → holds v (normalized_thresh k ps) ≡ leb k (count v ps)
    unfolding normalized_thresh
    thresh-holds k ps h =
        let m = k - trivial_count ps in
        let n = len ps - unsatisfied_count ps - trivial_count ps in
        let a = others-len ps in
        let c = count-others ps in
        let b = others_count-bounded ps in
        let e : n ≡ others_len ps = omega (arith, a) in
        rw c (elim (Bool-cases (m == n)) [
          | inl all ↦ elim (Bool-cases (m == 1)) [
            | inl one ↦
                let (l, r) = same_kind true ps in
                let i = (==_iff m n).0 all in
                let j = (==_iff m 1).0 one in
                rw (all, one)
                  (reason-holds m true true (ret_subs true true ps) (λ _ _ z. z)
                    ∙ conclude k _ _ m _ _ _ refl (λ x y z. omega (arith, i, j, e, l, r, z))
                        (λ x y. (omega (arith, i, j, e, l), omega (arith, i, j, e, l, r, y))))
            | inr many ↦
                let (l, (f, g)) = and_kind ps h in
                let i = (==_iff m n).0 all in
                rw (all, many)
                  (reason-holds m true false (ret_subs true false ps) (λ _ _ z. z)
                    ∙ conclude k _ _ m _ _ _ refl (λ x y z. let j = f z in omega (arith, i, e, j))
                        (λ x y. (omega (arith, i, e, l), g (omega (arith, i, e, y)))))
          ]
          | inr other ↦ elim (Bool-cases (m == 1)) [
            | inl one ↦
                let (l, (f, g)) = or_kind ps h in
                let i = (==_iff m 1).0 one in
                rw (other, one)
                  (reason-holds m false true (ret_subs false true ps) (λ _ _ _. refl)
                    ∙ conclude k _ _ m _ _ _ refl (λ x y z. let j = f z in omega (arith, i, j))
                        (λ x y. (omega (arith, i, l, b, y), g (omega (arith, i, y)))))
            | inr many ↦
                let (l, r) = same_kind false ps in
                rw (other, many)
                  (reason-holds m false false (ret_subs false false ps)
                      (λ x y z. omega (arith, x, y, z))
                    ∙ conclude k _ _ m _ _ _ refl (λ x y z. omega (arith, r, z))
                        (λ x y. (omega (arith, l, b, y), omega (arith, r, y))))
          ]
        ])

  push-AllHasSubs :
      (a o : Bool) (p : Policy B K) (ret : Policies B K)
      → HasSubs p
      → AllHasSubs ret
      → AllHasSubs (push a o p ret)
  push-AllHasSubs true true (Policy.thresh k subs) ret h g = (h, g)
  push-AllHasSubs true false (Policy.thresh k subs) ret h g = elim (Bool-cases (k == len subs)) [
    | inl same ↦ rw same (append-AllHasSubs subs ret h.1 g)
    | inr other ↦ rw other (h, g)
  ]
  push-AllHasSubs false true (Policy.thresh k subs) ret h g = elim (Bool-cases (k == 1)) [
    | inl same ↦ rw same (append-AllHasSubs subs ret h.1 g)
    | inr other ↦ rw other (h, g)
  ]
  push-AllHasSubs false false (Policy.thresh k subs) ret h g = (h, g)
  push-AllHasSubs a o Policy.trivial ret h g = g
  push-AllHasSubs a o Policy.unsatisfiable ret h g = g
  push-AllHasSubs a o _ ret h g = (h, g)

  ret_subs-AllHasSubs :
      (a o : Bool) (ps : Policies B K) → AllHasSubs ps → AllHasSubs (ret_subs a o ps)
  unfolding ret_subs
  ret_subs-AllHasSubs a o nil h = tt
  ret_subs-AllHasSubs a o (cons p ps) h =
      push-AllHasSubs a o p (ret_subs a o ps) h.0 (ret_subs-AllHasSubs a o ps h.1)

  single-HasSubs :
      (ret : Policies B K) (k : ℕ)
      → 1 ≤ len ret
      → AllHasSubs ret
      → HasSubs (single_or ret (Policy.thresh k ret))
  single-HasSubs nil k l h = (l, h)
  single-HasSubs (cons p nil) k l h = h.0
  single-HasSubs (cons p (cons q ps)) k l h = (l, h)

  reason-HasSubs :
      (m : ℕ) (a o : Bool) (ret : Policies B K) → AllHasSubs ret → HasSubs (reason m a o ret)
  unfolding reason
  reason-HasSubs m a o ret h = elim (Bool-cases (m == 0)) [
    | inl none ↦ rw none tt
    | inr positive ↦ elim (Bool-cases (ltb (len ret) m)) [
      | inl few ↦ rw (positive, few) tt
      | inr enough ↦
          rw (positive, enough) (single-HasSubs ret _ (ground (arith, positive, enough)) h)
    ]
  ]

  normalized_inscribe-HasSubs :
      (i : Inscription) (p : Policy B K) → HasSubs (normalized_inscribe i p)
  normalized_inscribe-HasSubs i Policy.unsatisfiable = tt
  normalized_inscribe-HasSubs i _ = tt

  mutual
    unfolding normalized normalized_thresh

    pub normalized-HasSubs : (p : Policy B K) → HasSubs (normalized p)
    normalized-HasSubs (Policy.thresh k subs) =
        reason-HasSubs _ _ _ _ (ret_subs-AllHasSubs _ _ _ (normalized_all-AllHasSubs subs))
    normalized-HasSubs (Policy.inscribe i sub) = normalized_inscribe-HasSubs i (normalized sub)
    normalized-HasSubs _ = tt

    normalized_all-AllHasSubs : (ps : Policies B K) → AllHasSubs (normalized_all ps)
    normalized_all-AllHasSubs nil = tt
    normalized_all-AllHasSubs (cons p ps) = (normalized-HasSubs p, normalized_all-AllHasSubs ps)

  inscribe-holds :
      (v : Policy B K → Bool) (i : Inscription) (p : Policy B K)
      → holds v (normalized_inscribe i p) ≡ holds v p
  unfolding holds
  inscribe-holds v i Policy.unsatisfiable = refl
  inscribe-holds v i _ = refl

  mutual
    unfolding normalized holds

    same_meaning : (v : Policy B K → Bool) (p : Policy B K) → holds v (normalized p) ≡ holds v p
    same_meaning v (Policy.thresh k subs) =
        thresh-holds v k (normalized_all subs) (normalized_all-AllHasSubs subs)
        ∙ ap (leb k) (normalized_all-count v subs)
    same_meaning v (Policy.inscribe i sub) =
        inscribe-holds v i (normalized sub) ∙ same_meaning v sub
    same_meaning v _ = refl

    normalized_all-count :
        (v : Policy B K → Bool) (ps : Policies B K) → count v (normalized_all ps) ≡ count v ps
    normalized_all-count v nil = refl
    normalized_all-count v (cons p ps) =
        ap₂ (λ x n. from_bool x + n) (same_meaning v p) (normalized_all-count v ps)

  -- `normalized` gives a policy that holds under the same keys, preimages and lock times as the
  -- original, whatever those are.
  pub normalized-holds :
      (v : Policy B K → Bool) (p : Policy B K) → holds v (normalized p) ≡ holds v p
  normalized-holds = same_meaning
