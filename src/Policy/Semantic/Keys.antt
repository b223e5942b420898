-- ===== src/Policy/Semantic/Keys.antt =====
-- `n_keys` and `minimum_n_keys` of src/policy/semantic.rs.
use rust_miniscript.Prelude.{
  ℕ, zero, suc, ◌+◌, ◌≤◌, Bool, true, false, ltb, leb, from_bool, if◌then◌else◌, List, [], ◌∷◌,
  length, Option, none, some, ◌≡◌, ◌↔◌, refl, arith,
}
use rust_miniscript.Primitives.Locktime.{Bitcoin}
use rust_miniscript.Miniscript.Ast.{MiniscriptKey}
use rust_miniscript.Policy.Semantic.{Policy, Policies, nil, cons, holds, count}

-- `sort_unstable` on numbers.
abbrev insert : ℕ → List ℕ → List ℕ
insert x [] = x ∷ []
insert x (y ∷ ys) = if leb x y then x ∷ y ∷ ys else y ∷ insert x ys

abbrev sort : List ℕ → List ℕ
sort [] = []
sort (x ∷ xs) = insert x (sort xs)

-- The sum of the first `k` elements.
abbrev sum_first : ℕ → List ℕ → ℕ
sum_first zero xs = 0
sum_first (suc k) [] = 0
sum_first (suc k) (x ∷ xs) = x + sum_first k xs

abbrev keep : Option ℕ → List ℕ → List ℕ
keep none xs = xs
keep (some x) xs = x ∷ xs

abbrev minimum_of : ℕ → List ℕ → Option ℕ
minimum_of k sublens = if ltb (length sublens) k then none else some (sum_first k (sort sublens))

kept :
    (o : Option ℕ) (b : Bool) (xs : List ℕ) (n : ℕ)
    → (o ≡ none) ↔ (b ≡ false)
    → length xs ≡ n
    → length (keep o xs) ≡ from_bool b + n
kept none true xs n (f, g) e = cc (f refl)
kept none false xs n h e = omega (arith, e)
kept (some x) true xs n h e = omega (arith, e)
kept (some x) false xs n (f, g) e = cc (g refl)

from_bool_mono : (a b : Bool) → (a ≡ true → b ≡ true) → from_bool a ≤ from_bool b
from_bool_mono false b h = omega arith
from_bool_mono true b h = rw (h refl) (omega arith)

refuted : {b : Bool} (a : Bool) → (a ≡ true → b ≡ true) → b ≡ false → a ≡ false
refuted true h e = cc (h refl)
refuted false h e = refl

module _ {B : Bitcoin} {K : MiniscriptKey} where
  unfoldable mutual
    pub n_keys : Policy B K → ℕ
    n_keys (Policy.key pk) = 1
    n_keys (Policy.inscribe i sub) = n_keys sub
    n_keys (Policy.thresh k subs) = n_keys_all subs
    n_keys _ = 0

    pub n_keys_all : Policies B K → ℕ
    n_keys_all nil = 0
    n_keys_all (cons p ps) = n_keys p + n_keys_all ps

  unfoldable mutual
    pub minimum_n_keys : Policy B K → Option ℕ
    minimum_n_keys Policy.unsatisfiable = none
    minimum_n_keys (Policy.inscribe i sub) = minimum_n_keys sub
    minimum_n_keys (Policy.key pk) = some 1
    minimum_n_keys (Policy.thresh k subs) = minimum_of k (sublens subs)
    minimum_n_keys _ = some 0

    pub sublens : Policies B K → List ℕ
    sublens nil = []
    sublens (cons p ps) = keep (minimum_n_keys p) (sublens ps)

  abbrev all_available : Policy B K → Bool
  all_available p = true

  mutual
    unfolding minimum_n_keys holds

    available : (p : Policy B K) → (minimum_n_keys p ≡ none) ↔ (holds all_available p ≡ false)
    available Policy.unsatisfiable = ((λ h. refl), (λ h. refl))
    available (Policy.inscribe i sub) = available sub
    available (Policy.thresh k subs) = let e = length-sublens subs in (ground (arith, e))
    available _ = ((λ h. cc), (λ h. cc))

    length-sublens : (ps : Policies B K) → length (sublens ps) ≡ count all_available ps
    length-sublens nil = refl
    length-sublens (cons p ps) =
        kept (minimum_n_keys p) (holds all_available p) (sublens ps) _ (available p)
          (length-sublens ps)

  mutual
    unfolding holds

    monotone :
        (v : Policy B K → Bool) (p : Policy B K) → holds v p ≡ true → holds all_available p ≡ true
    monotone v Policy.unsatisfiable h = h
    monotone v (Policy.inscribe i sub) h = monotone v sub h
    monotone v (Policy.thresh k subs) h = ground (arith, count-monotone v subs, h)
    monotone v _ h = refl

    count-monotone :
        (v : Policy B K → Bool) (ps : Policies B K) → count v ps ≤ count all_available ps
    count-monotone v nil = omega arith
    count-monotone v (cons p ps) = omega (
      arith,
      count-monotone v ps,
      from_bool_mono (holds v p) (holds all_available p) (monotone v p),
    )

  -- `minimum_n_keys` is `None` exactly for the policies that hold under no keys, preimages and lock
  -- times.
  pub minimum_n_keys-none :
      (p : Policy B K) → (minimum_n_keys p ≡ none) ↔ ((v : Policy B K → Bool) → holds v p ≡ false)
  minimum_n_keys-none p = (
    (λ h v. refuted (holds v p) (monotone v p) ((available p).0 h)),
    (λ f. (available p).1 (f all_available)),
  )
