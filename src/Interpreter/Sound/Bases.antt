-- ===== src/Interpreter/Sound/Bases.antt =====
-- The base types that the rules of src/miniscript/types/correctness.rs accept, one test at a time.
use rust_miniscript.Prelude.{
  Bool, true, false, Result, ok, err, ◌>>=◌, ◌>>◌, guard, ◌≡◌, refl, sym, ap, ◌∙◌,
}
use rust_miniscript.Types.Kinds.{Base, ErrorKind}
use rust_miniscript.Types.Correctness.{Correctness}
use rust_miniscript.Types.Malleability.{Malleability}
use rust_miniscript.Types.Correctness.Wrappers.{b_to, k_to, v_to}
use rust_miniscript.Types.Correctness.Combinators.{
  bw_base, and_v_base, or_d_base, or_c_base, or_i_base, and_or_base,
}
use rust_miniscript.Types.Fragment.{Ty, with_mall}

abbrev pub base : Ty → Base
base t = t.corr.base

-- The correctness and the base of a result.
abbrev pub corr_of : Result ErrorKind Ty → Result ErrorKind Correctness
corr_of (err e) = err e
corr_of (ok t) = ok t.corr

abbrev pub base_of : Result ErrorKind Correctness → Result ErrorKind Base
base_of (err e) = err e
base_of (ok t) = ok t.base

pub with_mall-corr :
    (c : Result ErrorKind Correctness) (m : Malleability) (t : Ty)
    → with_mall c m ≡ ok t
    → base_of c ≡ ok t.corr.base
with_mall-corr (err e) m t h = cc
with_mall-corr (ok c) m t h = ap (λ r. base_of (corr_of r)) h

pub b_to-ok : (to x y : Base) → b_to to x ≡ ok y → (x ≡ Base.b) × (y ≡ to)
b_to-ok to Base.b y h = (refl, cc)
b_to-ok to Base.k y h = cc
b_to-ok to Base.v y h = cc
b_to-ok to Base.w y h = cc

pub k_to-ok : (to x y : Base) → k_to to x ≡ ok y → (x ≡ Base.k) × (y ≡ to)
k_to-ok to Base.k y h = (refl, cc)
k_to-ok to Base.b y h = cc
k_to-ok to Base.v y h = cc
k_to-ok to Base.w y h = cc

pub v_to-ok : (to x y : Base) → v_to to x ≡ ok y → (x ≡ Base.v) × (y ≡ to)
v_to-ok to Base.v y h = (refl, cc)
v_to-ok to Base.b y h = cc
v_to-ok to Base.k y h = cc
v_to-ok to Base.w y h = cc

pub bw_base-ok : (x y z : Base) → bw_base x y ≡ ok z → (x ≡ Base.b) × (y ≡ Base.w) × (z ≡ Base.b)
bw_base-ok Base.b Base.w z h = (refl, refl, cc)
bw_base-ok Base.b Base.b z h = cc
bw_base-ok Base.b Base.k z h = cc
bw_base-ok Base.b Base.v z h = cc
bw_base-ok Base.k y z h = cc
bw_base-ok Base.v y z h = cc
bw_base-ok Base.w y z h = cc

pub and_v_base-ok : (x y z : Base) → and_v_base x y ≡ ok z → (x ≡ Base.v) × (y ≡ z)
and_v_base-ok Base.v Base.b z h = (refl, cc)
and_v_base-ok Base.v Base.k z h = (refl, cc)
and_v_base-ok Base.v Base.v z h = (refl, cc)
and_v_base-ok Base.v Base.w z h = cc
and_v_base-ok Base.b y z h = cc
and_v_base-ok Base.k y z h = cc
and_v_base-ok Base.w y z h = cc

pub or_d_base-ok : (x y z : Base) → or_d_base x y ≡ ok z → (x ≡ Base.b) × (y ≡ z)
or_d_base-ok Base.b Base.b z h = (refl, cc)
or_d_base-ok Base.b Base.k z h = cc
or_d_base-ok Base.b Base.v z h = cc
or_d_base-ok Base.b Base.w z h = cc
or_d_base-ok Base.k y z h = cc
or_d_base-ok Base.v y z h = cc
or_d_base-ok Base.w y z h = cc

pub or_c_base-ok :
    (x y z : Base) → or_c_base x y ≡ ok z → (x ≡ Base.b) × (y ≡ Base.v) × (z ≡ Base.v)
or_c_base-ok Base.b Base.v z h = (refl, refl, cc)
or_c_base-ok Base.b Base.b z h = cc
or_c_base-ok Base.b Base.k z h = cc
or_c_base-ok Base.b Base.w z h = cc
or_c_base-ok Base.k y z h = cc
or_c_base-ok Base.v y z h = cc
or_c_base-ok Base.w y z h = cc

pub or_i_base-ok : (x y z : Base) → or_i_base x y ≡ ok z → (x ≡ z) × (y ≡ z)
or_i_base-ok Base.b Base.b z h = (cc, cc)
or_i_base-ok Base.v Base.v z h = (cc, cc)
or_i_base-ok Base.k Base.k z h = (cc, cc)
or_i_base-ok Base.b Base.k z h = cc
or_i_base-ok Base.b Base.v z h = cc
or_i_base-ok Base.b Base.w z h = cc
or_i_base-ok Base.v Base.b z h = cc
or_i_base-ok Base.v Base.k z h = cc
or_i_base-ok Base.v Base.w z h = cc
or_i_base-ok Base.k Base.b z h = cc
or_i_base-ok Base.k Base.v z h = cc
or_i_base-ok Base.k Base.w z h = cc
or_i_base-ok Base.w y z h = cc

pub and_or_base-ok : (x y z u : Base) → and_or_base x y z ≡ ok u → (x ≡ Base.b) × (y ≡ u) × (z ≡ u)
and_or_base-ok Base.b Base.b Base.b u h = (refl, cc, cc)
and_or_base-ok Base.b Base.k Base.k u h = (refl, cc, cc)
and_or_base-ok Base.b Base.v Base.v u h = (refl, cc, cc)
and_or_base-ok Base.b Base.b Base.k u h = cc
and_or_base-ok Base.b Base.b Base.v u h = cc
and_or_base-ok Base.b Base.b Base.w u h = cc
and_or_base-ok Base.b Base.k Base.b u h = cc
and_or_base-ok Base.b Base.k Base.v u h = cc
and_or_base-ok Base.b Base.k Base.w u h = cc
and_or_base-ok Base.b Base.v Base.b u h = cc
and_or_base-ok Base.b Base.v Base.k u h = cc
and_or_base-ok Base.b Base.v Base.w u h = cc
and_or_base-ok Base.b Base.w z u h = cc
and_or_base-ok Base.k y z u h = cc
and_or_base-ok Base.v y z u h = cc
and_or_base-ok Base.w y z u h = cc

-- A computed base that is passed on.
pub base-bind :
    (r : Result ErrorKind Base) (f : Base → Result ErrorKind Correctness) (z : Base)
    → ((x y : Base) → base_of (f x) ≡ ok y → x ≡ y)
    → base_of (r >>= f) ≡ ok z
    → r ≡ ok z
base-bind (err e) f z same h = cc
base-bind (ok x) f z same h = ap ok (same x z h)

pub base-guard :
    (g : Bool) (e : ErrorKind) (r : Result ErrorKind Correctness) (z : Base)
    → base_of (guard g e >> r) ≡ ok z
    → base_of r ≡ ok z
base-guard true e r z h = h
base-guard false e r z h = cc

-- A bind behind two guards.
pub base-guards :
    (g h : Bool) (e f : ErrorKind) (r : Result ErrorKind Base)
    (next : Base → Result ErrorKind Correctness) (z : Base)
    → ((x y : Base) → base_of (next x) ≡ ok y → x ≡ y)
    → base_of (guard g e >> (guard h f >> (r >>= next))) ≡ ok z
    → r ≡ ok z
base-guards true true e f r next z same p = base-bind r next z same p
base-guards true false e f r next z same p = cc
base-guards false h e f r next z same p = cc

pub same_base : (x y : Base) → Path (Result ErrorKind Base) (ok x) (ok y) → x ≡ y
same_base x y h = cc

-- A part that does not bear on the base.
pub base-rest :
    {A : Type 0} (r : Result ErrorKind A) (f : A → Result ErrorKind Correctness) (x y : Base)
    → ((a : A) → base_of (f a) ≡ ok x)
    → base_of (r >>= f) ≡ ok y
    → x ≡ y
base-rest (err e) f x y same h = cc
base-rest (ok a) f x y same h = same_base x y (sym (same a) ∙ h)

-- A base of which the value is a Boolean on the stack.
abbrev pub is_boolean : Base → Bool
is_boolean Base.v = false
is_boolean _ = true
