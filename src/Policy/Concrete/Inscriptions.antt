-- ===== src/Policy/Concrete/Inscriptions.antt =====
-- The inscriptions of the policies that `is_valid` of src/policy/concrete.rs accepts.
use rust_miniscript.Prelude.{Bool, true, false, ◌||◌, ◌≡◌, refl}
use rust_miniscript.Primitives.Locktime.{Bitcoin}
use rust_miniscript.Miniscript.Ast.{MiniscriptKey}
use rust_miniscript.Miniscript.Check.{validate_is_err}
use rust_miniscript.Policy.Concrete.{
  Concrete, Concretes, nil, cons, invalid_inscribed, any_invalid_inscribed,
}

pub or_false : (a b : Bool) → (a || b) ≡ false → (a ≡ false) × (b ≡ false)
or_false true b h = cc
or_false false b h = (refl, h)

module _ {B : Bitcoin} {K : MiniscriptKey} where
  abbrev mutual
    -- Every inscription of the policy is valid.
    pub HasValidInscriptions : Concrete B K → Type 0
    HasValidInscriptions (Concrete.inscribe i sub) =
        (validate_is_err B i ≡ false) × HasValidInscriptions sub
    HasValidInscriptions (Concrete.and subs) = AllHaveValidInscriptions subs
    HasValidInscriptions (Concrete.or weights subs) = AllHaveValidInscriptions subs
    HasValidInscriptions (Concrete.thresh k subs) = AllHaveValidInscriptions subs
    HasValidInscriptions _ = Unit

    AllHaveValidInscriptions : Concretes B K → Type 0
    AllHaveValidInscriptions nil = Unit
    AllHaveValidInscriptions (cons p ps) = HasValidInscriptions p × AllHaveValidInscriptions ps

  mutual
    unfolding invalid_inscribed

    pub valid_inscriptions :
        (p : Concrete B K) → invalid_inscribed p ≡ false → HasValidInscriptions p
    valid_inscriptions (Concrete.inscribe i sub) h =
        let (a, b) = or_false (validate_is_err B i) (invalid_inscribed sub) h in
        (a, valid_inscriptions sub b)
    valid_inscriptions (Concrete.and subs) h = all_valid_inscriptions subs h
    valid_inscriptions (Concrete.or weights subs) h = all_valid_inscriptions subs h
    valid_inscriptions (Concrete.thresh k subs) h = all_valid_inscriptions subs h
    valid_inscriptions _ h = tt

    all_valid_inscriptions :
        (ps : Concretes B K) → any_invalid_inscribed ps ≡ false → AllHaveValidInscriptions ps
    all_valid_inscriptions nil h = tt
    all_valid_inscriptions (cons p ps) h =
        let (a, b) = or_false (invalid_inscribed p) (any_invalid_inscribed ps) h in
        (valid_inscriptions p a, all_valid_inscriptions ps b)

  mutual
    unfolding invalid_inscribed

    pub no_invalid : (p : Concrete B K) → HasValidInscriptions p → invalid_inscribed p ≡ false
    no_invalid (Concrete.inscribe i sub) h = rw (h.0, no_invalid sub h.1) refl
    no_invalid (Concrete.and subs) h = none_invalid subs h
    no_invalid (Concrete.or weights subs) h = none_invalid subs h
    no_invalid (Concrete.thresh k subs) h = none_invalid subs h
    no_invalid _ h = refl

    none_invalid :
        (ps : Concretes B K) → AllHaveValidInscriptions ps → any_invalid_inscribed ps ≡ false
    none_invalid nil h = refl
    none_invalid (cons p ps) h = rw (no_invalid p h.0, none_invalid ps h.1) refl
