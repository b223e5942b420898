-- ===== src/Ext/Timelock.antt =====
-- `TimelockInfo` of src/miniscript/types/extra_props.rs.
pub mod Conflict
use rust_miniscript.Prelude.{ℕ, Bool, false, ◌&&◌, ◌||◌, List, [], ◌∷◌, ltb, if◌then◌else◌}

pub record TimelockInfo : Type 0 where
  pub csv_with_height : Bool
  pub csv_with_time : Bool
  pub cltv_with_height : Bool
  pub cltv_with_time : Bool
  pub contains_combination : Bool

abbrev pub new : TimelockInfo
new = record {
  csv_with_height = false;
  csv_with_time = false;
  cltv_with_height = false;
  cltv_with_time = false;
  contains_combination = false;
}

-- The test `height_and_time` of the fold in `combine_threshold`.
unfoldable pub height_and_time : TimelockInfo → TimelockInfo → Bool
height_and_time acc t =
    (acc.csv_with_height && t.csv_with_time)
    || (acc.csv_with_time && t.csv_with_height)
    || (acc.cltv_with_time && t.cltv_with_height)
    || (acc.cltv_with_height && t.cltv_with_time)

-- One step of the fold.
unfoldable pub combine_step : ℕ → TimelockInfo → TimelockInfo → TimelockInfo
combine_step k acc t = record {
  csv_with_height = acc.csv_with_height || t.csv_with_height;
  csv_with_time = acc.csv_with_time || t.csv_with_time;
  cltv_with_height = acc.cltv_with_height || t.cltv_with_height;
  cltv_with_time = acc.cltv_with_time || t.cltv_with_time;
  contains_combination =
      (if ltb 1 k
        then acc.contains_combination || height_and_time acc t
        else acc.contains_combination)
      || t.contains_combination;
}

unfoldable pub combine_fold : ℕ → TimelockInfo → List TimelockInfo → TimelockInfo
combine_fold k acc [] = acc
combine_fold k acc (t ∷ ts) = combine_fold k (combine_step k acc t) ts

unfoldable pub combine_threshold : ℕ → List TimelockInfo → TimelockInfo
unfolding combine_fold combine_step
combine_threshold k ts = combine_fold k new ts

unfoldable pub combine_and : TimelockInfo → TimelockInfo → TimelockInfo
unfolding combine_threshold
combine_and a b = combine_threshold 2 (a ∷ b ∷ [])

unfoldable pub combine_or : TimelockInfo → TimelockInfo → TimelockInfo
unfolding combine_threshold
combine_or a b = combine_threshold 1 (a ∷ b ∷ [])
