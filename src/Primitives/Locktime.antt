-- ===== src/Primitives/Locktime.antt =====
-- What the crate takes from the bitcoin crate, as an interface, and the lock times of
-- src/primitives/absolute_locktime.rs and relative_locktime.rs, which wrap two of its types.
use rust_miniscript.Prelude.{ℕ, Bool, not, leb, ◌&&◌, Result, ok, err, if◌then◌else◌}

-- `bitcoin::absolute::LockTime`, `bitcoin::Sequence`, and two constants of that crate.
pub record Bitcoin : Type 1 where
  pub LockTime : Type 0
  pub lock_from_consensus : ℕ → LockTime
  pub lock_to_consensus_u32 : LockTime → ℕ
  pub is_block_height : LockTime → Bool
  pub is_block_time : LockTime → Bool
  pub Sequence : Type 0
  pub sequence_from_consensus : ℕ → Sequence
  pub sequence_to_consensus_u32 : Sequence → ℕ
  pub is_relative_lock_time : Sequence → Bool
  pub is_zero : Sequence → Bool
  pub is_height_locked : Sequence → Bool
  pub is_time_locked : Sequence → Bool
  pub max_script_element_size : ℕ
  pub max_block_weight : ℕ

pub record AbsLockTime (B : Bitcoin) : Type 0 where
  pub inner : B.LockTime

pub record RelLockTime (B : Bitcoin) : Type 0 where
  pub inner : B.Sequence

abbrev pub max_absolute_locktime : ℕ
max_absolute_locktime = 0x7FFFFFFF

abbrev pub min_absolute_locktime : ℕ
min_absolute_locktime = 1

-- The error is the value that is out of range.
unfoldable pub abs_from_consensus : (B : Bitcoin) → ℕ → Result ℕ (AbsLockTime B)
abs_from_consensus B n =
    if leb min_absolute_locktime n && leb n max_absolute_locktime
    then ok (record { inner = B.lock_from_consensus n })
    else err n

unfoldable pub rel_try_from : (B : Bitcoin) → B.Sequence → Result ℕ (RelLockTime B)
rel_try_from B seq =
    if B.is_relative_lock_time seq && not (B.is_zero seq)
    then ok (record { inner = seq })
    else err (B.sequence_to_consensus_u32 seq)

unfoldable pub rel_from_consensus : (B : Bitcoin) → ℕ → Result ℕ (RelLockTime B)
unfolding rel_try_from
rel_from_consensus B n = rel_try_from B (B.sequence_from_consensus n)
