-- ===== src/Policy/Semantic.antt =====
-- `Policy` of src/policy/semantic.rs. The children of a threshold are a type of their own, and
-- `Arc` is left out, as policies are immutable.
pub mod Meaning
pub mod Filter
pub mod Keys
pub mod Constraint
pub mod Entails
pub mod Normal
pub mod Ends
use rust_miniscript.Prelude.{
  ℕ, suc, ◌+◌, ◌-◌, Bool, true, false, ◌&&◌, ltb, leb, ◌==◌, from_bool, if◌then◌else◌,
}
use rust_miniscript.Primitives.Locktime.{Bitcoin, AbsLockTime, RelLockTime}
use rust_miniscript.Miniscript.Ast.{MiniscriptKey, Bytes, Inscription}

mutual
  pub data Policy (B : Bitcoin) (K : MiniscriptKey) : Type 0 where
    unsatisfiable : Policy B K
    trivial : Policy B K
    key : K.Pk → Policy B K
    after : AbsLockTime B → Policy B K
    older : RelLockTime B → Policy B K
    sha256 : K.Sha256 → Policy B K
    hash256 : K.Hash256 → Policy B K
    ripemd160 : K.Ripemd160 → Policy B K
    hash160 : K.Hash160 → Policy B K
    tx_template : Bytes → Policy B K
    inscribe : Inscription → Policy B K → Policy B K
    thresh : ℕ → Policies B K → Policy B K

  pub data Policies (B : Bitcoin) (K : MiniscriptKey) : Type 0 where
    nil : Policies B K
    cons : Policy B K → Policies B K → Policies B K

module _ {B : Bitcoin} {K : MiniscriptKey} where
  abbrev pub len : Policies B K → ℕ
  len nil = 0
  len (cons p ps) = suc (len ps)

  abbrev pub append : Policies B K → Policies B K → Policies B K
  append nil qs = qs
  append (cons p ps) qs = cons p (append ps qs)

  abbrev pub is_trivial : Policy B K → Bool
  is_trivial Policy.trivial = true
  is_trivial _ = false

  abbrev pub is_unsatisfiable : Policy B K → Bool
  is_unsatisfiable Policy.unsatisfiable = true
  is_unsatisfiable _ = false

  abbrev pub trivial_count : Policies B K → ℕ
  trivial_count nil = 0
  trivial_count (cons p ps) = from_bool (is_trivial p) + trivial_count ps

  abbrev pub unsatisfied_count : Policies B K → ℕ
  unsatisfied_count nil = 0
  unsatisfied_count (cons p ps) = from_bool (is_unsatisfiable p) + unsatisfied_count ps

  -- What the second loop of `normalized` pushes for a threshold: its children, where it is of the
  -- same kind as the outer one.
  abbrev pub push_thresh : Bool → Bool → ℕ → Policies B K → Policies B K → Policies B K
  push_thresh true true k subs ret = cons (Policy.thresh k subs) ret
  push_thresh true false k subs ret =
      if k == len subs then append subs ret else cons (Policy.thresh k subs) ret
  push_thresh false true k subs ret =
      if k == 1 then append subs ret else cons (Policy.thresh k subs) ret
  push_thresh false false k subs ret = cons (Policy.thresh k subs) ret

  abbrev pub push : Bool → Bool → Policy B K → Policies B K → Policies B K
  push is_and is_or Policy.trivial ret = ret
  push is_and is_or Policy.unsatisfiable ret = ret
  push is_and is_or (Policy.thresh k subs) ret = push_thresh is_and is_or k subs ret
  push is_and is_or x ret = cons x ret

  unfoldable pub ret_subs : Bool → Bool → Policies B K → Policies B K
  ret_subs is_and is_or nil = nil
  ret_subs is_and is_or (cons p ps) = push is_and is_or p (ret_subs is_and is_or ps)

  -- The policy of a `ret_subs` of length 1, or else the threshold.
  abbrev pub single_or : Policies B K → Policy B K → Policy B K
  single_or (cons p nil) q = p
  single_or _ q = q

  -- The tests after the loop. They keep each threshold in the range that `Threshold::new` asks for.
  unfoldable pub reason : ℕ → Bool → Bool → Policies B K → Policy B K
  reason m is_and is_or ret =
      if m == 0
      then Policy.trivial
      else if ltb (len ret) m
      then Policy.unsatisfiable
      else single_or ret (Policy.thresh (if is_and then len ret else if is_or then 1 else m) ret)

  -- The arm for a threshold, over its normalized children.
  unfoldable pub normalized_thresh : ℕ → Policies B K → Policy B K
  unfolding ret_subs reason
  normalized_thresh k subs =
      let n = len subs - unsatisfied_count subs - trivial_count subs in
      let m = k - trivial_count subs in reason m (m == n) (m == 1) (ret_subs (m == n) (m == 1) subs)

  abbrev pub normalized_inscribe : Inscription → Policy B K → Policy B K
  normalized_inscribe i Policy.unsatisfiable = Policy.unsatisfiable
  normalized_inscribe i child = Policy.inscribe i child

  unfoldable mutual
    unfolding normalized_thresh

    pub normalized : Policy B K → Policy B K
    normalized (Policy.inscribe i sub) = normalized_inscribe i (normalized sub)
    normalized (Policy.thresh k subs) = normalized_thresh k (normalized_all subs)
    normalized x = x

    pub normalized_all : Policies B K → Policies B K
    normalized_all nil = nil
    normalized_all (cons p ps) = cons (normalized p) (normalized_all ps)

  -- Whether the policy holds, where `v` says which keys, preimages and lock times are available.
  unfoldable mutual
    pub holds : (Policy B K → Bool) → Policy B K → Bool
    holds v Policy.unsatisfiable = false
    holds v Policy.trivial = true
    holds v (Policy.inscribe i sub) = holds v sub
    holds v (Policy.thresh k subs) = leb k (count v subs)
    holds v leaf = v leaf

    pub count : (Policy B K → Bool) → Policies B K → ℕ
    count v nil = 0
    count v (cons p ps) = from_bool (holds v p) + count v ps
