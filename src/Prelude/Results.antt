-- ===== src/Prelude/Results.antt =====
-- `Result<A, E>`, with Rust's `?` as a bind.
use mathlib.Core.Path.{◌≡◌, refl}
use mathlib.Core.Bool.{Bool, true, false}
use rust_miniscript.Prelude.Tests.{if◌then◌else◌}

pub data Result {ℓ κ} (E : Type ℓ) (A : Type κ) : Type (ℓ ⊔ κ) where
  err : E → Result E A
  ok : A → Result E A

-- `Result::is_ok`.
abbrev pub is_ok {ℓ κ} : {E : Type ℓ} {A : Type κ} → Result E A → Bool
is_ok (err e) = false
is_ok (ok a) = true

-- `if !test { return Err(e) }`.
abbrev pub guard {ℓ} : {E : Type ℓ} → Bool → E → Result E (Unit {0})
guard test e = elim test [ true ↦ ok tt | false ↦ err e ]

-- `if test { return Err(e) }`.
abbrev pub reject {ℓ} : {E : Type ℓ} → Bool → E → Result E (Unit {0})
reject test e = if test then err e else ok tt

pub reject-eq-ok {ℓ} : {E : Type ℓ} (test : Bool) (e : E) → reject test e ≡ ok tt → test ≡ false
reject-eq-ok true e h = cc
reject-eq-ok false e h = refl

-- `Result::and_then`, which is also what `?` does.
infixl 5 ◌>>=◌
abbrev pub ◌>>=◌ {ℓ κ μ} :
    {E : Type ℓ} {A : Type κ} {B : Type μ} → Result E A → (A → Result E B) → Result E B
err e >>= next = err e
ok a >>= next = next a

-- A successful bind has a successful first part.
pub >>=-eq-ok {ℓ κ μ} :
    {E : Type ℓ} {A : Type κ} {B : Type μ} (r : Result E A) (next : A → Result E B) {b : B}
    → (r >>= next) ≡ ok b
    → (a : A) × (r ≡ ok a) × (next a ≡ ok b)
>>=-eq-ok (err e) next h = cc
>>=-eq-ok (ok a) next h = (a, refl, h)

-- A statement that is run for its error alone.
infixl 5 ◌>>◌
abbrev pub ◌>>◌ {ℓ μ} : {E : Type ℓ} {B : Type μ} → Result E (Unit {0}) → Result E B → Result E B
r >> rest = r >>= λ _. rest

pub ok_unique {ℓ κ} :
    {E : Type ℓ} {A : Type κ} {a b : A} (r : Result E A) → r ≡ ok a → r ≡ ok b → a ≡ b
ok_unique r d e = cc
