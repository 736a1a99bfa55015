-- ===== src/Db/Capacities.antt =====
-- `get_and_update_capacities` (mgmtd/src/db/target.rs).
use beegfs_rust.Prelude.{ℕ, ◌==◌, if◌then◌else◌, none, some, List, [], ◌∷◌, map}
use beegfs_rust.Result.{Result, ok, err, no_rows, ◌>>=◌}
use beegfs_rust.Types.{NodeTypeServer}
use beegfs_rust.Db.Tables.{Target, TargetCapacities, find_target}

-- The UPDATE of the row with the uid.
abbrev pub set_capacities : ℕ → TargetCapacities → Target → Target
set_capacities uid new t = if t.target_uid == uid then record t { capacities = new } else t

unfoldable pub get_and_update_capacities :
    List (Result (ℕ × TargetCapacities))
    → NodeTypeServer
    → List Target
    → Result (List (ℕ × TargetCapacities) × List Target)
unfolding find_target
get_and_update_capacities [] ty targets = ok ([], targets)
get_and_update_capacities (item ∷ items) ty targets = do
  (i, new) ← item
  t ← (elim (find_target ty i targets) [ none ↦ err no_rows | some t ↦ ok t ])
  (old_values, targets') ←
      get_and_update_capacities items ty (map (set_capacities t.target_uid new) targets)
  ok ((i, t.capacities) ∷ old_values, targets')
