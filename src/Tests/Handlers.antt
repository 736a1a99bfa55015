-- ===== src/Tests/Handlers.antt =====
-- Concrete runs of the handlers of the consistency states.
use beegfs_rust.Prelude.{◌≡◌, refl, inl, false, List, [], ◌∷◌}
use beegfs_rust.Result.{ok, err, length_mismatch}
use beegfs_rust.Types.{NodeType, TargetConsistencyState}
use beegfs_rust.Message.TargetStates.{ChangeTargetConsistencyStates, SetTargetConsistencyStates}
use beegfs_rust.Db.Tables.{find_target}
use beegfs_rust.Db.Misc.{member}
use beegfs_rust.Db.Target.{count, validate_ids, update_last_contact_times, update_last_update}
use beegfs_rust.Handlers.{App, end_tx, write_tx, fail_on_pre_shutdown, try_from}
use beegfs_rust.Handlers.ConsistencyStates.{
  again, check_old_states, change_states, change_tx, change_done, handle_change,
}
use beegfs_rust.Handlers.ConsistencyLaws.{consistencies, handle_change_silent}
use beegfs_rust.Tests.Db.{targets, groups, nodes}

abbrev app : App
app = record {
  db = record { nodes = nodes; targets = targets; groups = groups };
  is_pre_shutdown = false;
  node_offline_timeout = 180;
  now = 1000;
  notifications = 0;
}

-- Target 1 to needs-resync, with the old state as given.
abbrev change : TargetConsistencyState → List TargetConsistencyState → ChangeTargetConsistencyStates
change old new = record {
  node_type = NodeType.storage;
  target_ids = 1 ∷ [];
  old_states = old ∷ [];
  new_states = new;
  ack_id = [];
}

no_new_state :
    handle_change (change TargetConsistencyState.good []) app ≡ (err length_mismatch, app)
unfolding handle_change fail_on_pre_shutdown
no_new_state = refl

abbrev to_resync : List TargetConsistencyState
to_resync = TargetConsistencyState.needs_resync ∷ []

other_old_state : handle_change (change TargetConsistencyState.bad to_resync) app ≡ (
  ok (record { result = again }),
  (handle_change (change TargetConsistencyState.bad to_resync) app).1,
)
unfolding handle_change fail_on_pre_shutdown write_tx end_tx change_tx change_states change_done
    check_old_states try_from validate_ids update_last_contact_times update_last_update count member
    find_target
other_old_state = refl

handle_change_silent_example :
    consistencies (handle_change (change TargetConsistencyState.bad to_resync) app).1.db.targets
    ≡ consistencies targets
handle_change_silent_example =
    handle_change_silent (change TargetConsistencyState.bad to_resync) app other_old_state
      (inl refl)

-- Target 2 to bad, set online.
abbrev set_bad : SetTargetConsistencyStates
set_bad = record {
  node_type = NodeType.storage;
  target_ids = 2 ∷ [];
  states = TargetConsistencyState.bad ∷ [];
  ack_id = [];
  set_online = 1;
}
