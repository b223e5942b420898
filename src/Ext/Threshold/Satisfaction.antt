-- ===== src/Ext/Threshold/Satisfaction.antt =====
-- What `threshold` makes of children that cannot be satisfied.
use rust_miniscript.Prelude.{◌≡◌, none, some, [], ◌∷◌}
use rust_miniscript.Ext.Data.{SatData, ExtData}
use rust_miniscript.Ext.Threshold.{threshold}

-- A threshold of 1 over a child that can be satisfied and dissatisfied and a second one that
-- cannot be satisfied has no `sat_data`, as if it could not be satisfied, though the first child is
-- enough.
pub threshold-unsatisfiable :
    (x y : ExtData) (s d : SatData)
    → x.sat_data ≡ some s
    → x.dissat_data ≡ some d
    → y.sat_data ≡ none
    → (threshold 1 2 (x ∷ y ∷ [])).sat_data ≡ none
unfolding threshold
threshold-unsatisfiable x y s d hs hd hn = simp (hs, hd, hn)
