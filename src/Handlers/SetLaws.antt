-- ===== src/Handlers/SetLaws.antt =====
-- What the handler of `SetTargetConsistencyStates` guarantees
-- (mgmtd/src/bee_msg/set_target_consistency_states.rs).
use beegfs_rust.Prelude.{ltb, if◌then◌else◌}
use beegfs_rust.Types.{NodeTypeServer}
use beegfs_rust.Message.TargetStates.{SetTargetConsistencyStates}
use beegfs_rust.Db.Tables.{Target}
use beegfs_rust.Db.Target.{update_last_update}
use beegfs_rust.Db.Target.Consistency.{changed}
use beegfs_rust.Handlers.{Tables, App}
use beegfs_rust.Handlers.ConsistencyStates.{zip}

-- A target after the message: in contact if it asks for that, and then in its new state.
abbrev pub after_set : App → NodeTypeServer → SetTargetConsistencyStates → Target → Target
after_set app ty msg t =
    changed ty (zip msg.target_ids msg.states)
      (if ltb 0 msg.set_online then update_last_update app.now ty msg.target_ids t else t)
