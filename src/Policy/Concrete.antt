-- ===== src/Policy/Concrete.antt =====
-- `Policy` of src/policy/concrete.rs, which src/policy/mod.rs calls `Concrete`, with its checks and
-- its lifting. The loops over `rtl_post_order_iter` that keep a stack are recursions on the policy.
pub mod Satisfied
pub mod Safety
pub mod Lifts
pub mod Valid
pub mod Keys
pub mod Inscriptions
use rust_miniscript.Prelude.{
  ℕ, suc, ◌+◌, ◌-◌, Bool, true, false, not, ◌&&◌, ◌||◌, List, [], ◌∷◌, ◌++◌, length, ltb, leb, ◌==◌,
  from_bool, Result, ok, err, ◌>>=◌, ◌>>◌, if◌then◌else◌,
}
use rust_miniscript.Primitives.Locktime.{Bitcoin, AbsLockTime, RelLockTime}
use rust_miniscript.Primitives.Threshold.{validate_k_n}
use rust_miniscript.Ext.Timelock
use rust_miniscript.Ext.Timelock.{TimelockInfo, combine_threshold}
use rust_miniscript.Miniscript.Ast.{MiniscriptKey, Bytes, Inscription}
use rust_miniscript.Miniscript.Check.{validate_is_err}
use rust_miniscript.Policy.Semantic.{Policy, Policies, len, normalized}

mutual
  pub data Concrete (B : Bitcoin) (K : MiniscriptKey) : Type 0 where
    unsatisfiable : Concrete B K
    trivial : Concrete B K
    key : K.Pk → Concrete B K
    after : AbsLockTime B → Concrete B K
    older : RelLockTime B → Concrete B K
    sha256 : K.Sha256 → Concrete B K
    hash256 : K.Hash256 → Concrete B K
    ripemd160 : K.Ripemd160 → Concrete B K
    hash160 : K.Hash160 → Concrete B K
    tx_template : Bytes → Concrete B K
    inscribe : Inscription → Concrete B K → Concrete B K
    and : Concretes B K → Concrete B K
    or : List ℕ → Concretes B K → Concrete B K
    thresh : ℕ → Concretes B K → Concrete B K

  -- The children. Those of an `or` have their weights in a list of their own.
  pub data Concretes (B : Bitcoin) (K : MiniscriptKey) : Type 0 where
    nil : Concretes B K
    cons : Concrete B K → Concretes B K → Concretes B K

pub data PolicyError : Type 0 where
  height_timelock_combination duplicate_pub_keys invalid_inscription : PolicyError

pub data CompilerError : Type 0 where
  non_binary_arg_and non_binary_arg_or : CompilerError

-- An error of `lift`, or the panic of an `unwrap`.
pub data Fault : Type 0 where
  concrete_policy : PolicyError → Fault
  panic : Fault

unfoldable pub occurs : {A : Type 0} → (A → A → Bool) → A → List A → Bool
occurs same pk [] = false
occurs same pk (q ∷ qs) = same pk q || occurs same pk qs

-- The length of the set of the keys.
unfoldable pub unique_len : {A : Type 0} → (A → A → Bool) → List A → ℕ
unfolding occurs
unique_len same [] = 0
unique_len same (pk ∷ pks) = from_bool (not (occurs same pk pks)) + unique_len same pks

-- The sums of `is_safe_nonmalleable` over the children: how many are safe, and how many are not
-- malleable.
abbrev pub safe_count : List (Bool × Bool) → ℕ
safe_count [] = 0
safe_count (x ∷ xs) = from_bool x.0 + safe_count xs

abbrev pub non_mall_count : List (Bool × Bool) → ℕ
non_mall_count [] = 0
non_mall_count (x ∷ xs) = from_bool x.1 + non_mall_count xs

abbrev pub and_fold : Bool × Bool → List (Bool × Bool) → Bool × Bool
and_fold acc [] = acc
and_fold acc (x ∷ xs) = and_fold (acc.0 || x.0, acc.1 && x.1) xs

abbrev pub or_fold : Bool × Bool × Bool → List (Bool × Bool) → Bool × Bool × Bool
or_fold acc [] = acc
or_fold acc (x ∷ xs) = or_fold (acc.0 && x.0, acc.1 || x.0, acc.2 && x.1) xs

abbrev pub or_result : Bool × Bool × Bool → Bool × Bool
or_result acc = (acc.0, acc.1 && acc.2)

abbrev pub map_err : Result PolicyError (Unit {0}) → Result Fault (Unit {0})
map_err (ok u) = ok u
map_err (err e) = err (Fault.concrete_policy e)

module _ {B : Bitcoin} {K : MiniscriptKey} where
  abbrev pub size : Concretes B K → ℕ
  size nil = 0
  size (cons p ps) = suc (size ps)

  unfoldable mutual
    -- The keys in pre-order.
    pub keys : Concrete B K → List K.Pk
    keys (Concrete.key pk) = pk ∷ []
    keys (Concrete.inscribe i sub) = keys sub
    keys (Concrete.and subs) = all_keys subs
    keys (Concrete.or weights subs) = all_keys subs
    keys (Concrete.thresh k subs) = all_keys subs
    keys _ = []

    pub all_keys : Concretes B K → List K.Pk
    all_keys nil = []
    all_keys (cons p ps) = keys p ++ all_keys ps

  module _ (same_key : K.Pk → K.Pk → Bool) where
    unfoldable pub check_duplicate_keys : Concrete B K → Result PolicyError (Unit {0})
    unfolding keys unique_len
    check_duplicate_keys p =
        if ltb (unique_len same_key (keys p)) (length (keys p))
        then err PolicyError.duplicate_pub_keys
        else ok tt

  unfoldable mutual
    unfolding combine_threshold

    pub timelock_info : Concrete B K → TimelockInfo
    timelock_info (Concrete.after t) = record {
      csv_with_height = false;
      csv_with_time = false;
      cltv_with_height = B.is_block_height t.inner;
      cltv_with_time = B.is_block_time t.inner;
      contains_combination = false;
    }
    timelock_info (Concrete.older t) = record {
      csv_with_height = B.is_height_locked t.inner;
      csv_with_time = B.is_time_locked t.inner;
      cltv_with_height = false;
      cltv_with_time = false;
      contains_combination = false;
    }
    timelock_info (Concrete.and subs) = combine_threshold (size subs) (timelock_infos subs)
    timelock_info (Concrete.or weights subs) = combine_threshold 1 (timelock_infos subs)
    timelock_info (Concrete.thresh k subs) = combine_threshold k (timelock_infos subs)
    timelock_info (Concrete.inscribe i sub) = timelock_info sub
    timelock_info _ = Timelock.new

    pub timelock_infos : Concretes B K → List TimelockInfo
    timelock_infos nil = []
    timelock_infos (cons p ps) = timelock_info p ∷ timelock_infos ps

  unfoldable pub check_timelocks : Concrete B K → Result PolicyError (Unit {0})
  unfolding timelock_info
  check_timelocks p =
      if (timelock_info p).contains_combination
      then err PolicyError.height_timelock_combination
      else ok tt

  unfoldable mutual
    -- Whether the loop of `is_valid` meets an inscription that is not valid.
    pub invalid_inscribed : Concrete B K → Bool
    invalid_inscribed (Concrete.inscribe i sub) = validate_is_err B i || invalid_inscribed sub
    invalid_inscribed (Concrete.and subs) = any_invalid_inscribed subs
    invalid_inscribed (Concrete.or weights subs) = any_invalid_inscribed subs
    invalid_inscribed (Concrete.thresh k subs) = any_invalid_inscribed subs
    invalid_inscribed _ = false

    pub any_invalid_inscribed : Concretes B K → Bool
    any_invalid_inscribed nil = false
    any_invalid_inscribed (cons p ps) = invalid_inscribed p || any_invalid_inscribed ps

  unfoldable pub is_valid : (K.Pk → K.Pk → Bool) → Concrete B K → Result PolicyError (Unit {0})
  unfolding invalid_inscribed check_timelocks check_duplicate_keys
  is_valid same_key p = do
    if invalid_inscribed p then err PolicyError.invalid_inscription else ok tt
    check_timelocks p
    check_duplicate_keys same_key p

  unfoldable mutual
    -- The first node, in pre-order, that has another number of arguments than two.
    pub check_binary_ops : Concrete B K → Result CompilerError (Unit {0})
    check_binary_ops (Concrete.inscribe i sub) = check_binary_ops sub
    check_binary_ops (Concrete.and subs) = do
      if size subs == 2 then ok tt else err CompilerError.non_binary_arg_and
      all_binary_ops subs
    check_binary_ops (Concrete.or weights subs) = do
      if size subs == 2 then ok tt else err CompilerError.non_binary_arg_or
      all_binary_ops subs
    check_binary_ops (Concrete.thresh k subs) = all_binary_ops subs
    check_binary_ops _ = ok tt

    pub all_binary_ops : Concretes B K → Result CompilerError (Unit {0})
    all_binary_ops nil = ok tt
    all_binary_ops (cons p ps) = do check_binary_ops p; all_binary_ops ps

  unfoldable mutual
    -- Whether a compilation of the policy can be safe, and not malleable.
    pub is_safe_nonmalleable : Concrete B K → Bool × Bool
    is_safe_nonmalleable (Concrete.inscribe i sub) = is_safe_nonmalleable sub
    is_safe_nonmalleable (Concrete.sha256 h) = (false, true)
    is_safe_nonmalleable (Concrete.hash256 h) = (false, true)
    is_safe_nonmalleable (Concrete.ripemd160 h) = (false, true)
    is_safe_nonmalleable (Concrete.hash160 h) = (false, true)
    is_safe_nonmalleable (Concrete.after t) = (false, true)
    is_safe_nonmalleable (Concrete.older t) = (false, true)
    is_safe_nonmalleable (Concrete.and subs) = and_fold (false, true) (each_safe subs)
    is_safe_nonmalleable (Concrete.or weights subs) =
        or_result (or_fold (true, false, true) (each_safe subs))
    is_safe_nonmalleable (Concrete.thresh k subs) =
        let each = each_safe subs in
        (
          leb (size subs - k + 1) (safe_count each),
          (non_mall_count each == size subs) && leb (size subs - k) (safe_count each),
        )
    is_safe_nonmalleable _ = (true, true)

    pub each_safe : Concretes B K → List (Bool × Bool)
    each_safe nil = []
    each_safe (cons p ps) = is_safe_nonmalleable p ∷ each_safe ps

  -- `Threshold::new(k, subs).unwrap()` without a maximum.
  abbrev pub new_unwrap : ℕ → Policies B K → Result Fault (Policy B K)
  new_unwrap k subs = elim (validate_k_n 0 k (len subs)) [
    | err e ↦ err Fault.panic
    | ok u ↦ ok (Policy.thresh k subs)
  ]

  -- What `lift` does before and after its `match`.
  unfoldable pub around : Concrete B K → Result Fault (Policy B K) → Result Fault (Policy B K)
  unfolding check_timelocks
  around p matched = do map_err (check_timelocks p); ret ← matched; ok (normalized ret)

  unfoldable mutual
    unfolding around validate_k_n

    pub lift_match : Concrete B K → Result Fault (Policy B K)
    lift_match Concrete.unsatisfiable = ok Policy.unsatisfiable
    lift_match Concrete.trivial = ok Policy.trivial
    lift_match (Concrete.key pk) = ok (Policy.key pk)
    lift_match (Concrete.after t) = ok (Policy.after t)
    lift_match (Concrete.older t) = ok (Policy.older t)
    lift_match (Concrete.sha256 h) = ok (Policy.sha256 h)
    lift_match (Concrete.hash256 h) = ok (Policy.hash256 h)
    lift_match (Concrete.ripemd160 h) = ok (Policy.ripemd160 h)
    lift_match (Concrete.hash160 h) = ok (Policy.hash160 h)
    lift_match (Concrete.tx_template h) = ok (Policy.tx_template h)
    lift_match (Concrete.inscribe i sub) = do
      child ← around sub (lift_match sub)
      ok (Policy.inscribe i child)
    lift_match (Concrete.and subs) = do semantic_subs ← lift_all subs; new_unwrap 2 semantic_subs
    lift_match (Concrete.or weights subs) = do
      semantic_subs ← lift_all subs
      new_unwrap 1 semantic_subs
    lift_match (Concrete.thresh k subs) = do inner ← lift_all subs; ok (Policy.thresh k inner)

    pub lift_all : Concretes B K → Result Fault (Policies B K)
    lift_all nil = ok Policies.nil
    lift_all (cons p ps) = do
      first ← around p (lift_match p)
      rest ← lift_all ps
      ok (Policies.cons first rest)

  -- `Liftable::lift`.
  unfoldable pub lift : Concrete B K → Result Fault (Policy B K)
  unfolding around lift_match
  lift p = around p (lift_match p)
