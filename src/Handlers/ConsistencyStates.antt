-- ===== src/Handlers/ConsistencyStates.antt =====
-- The handlers of `ChangeTargetConsistencyStates` and `SetTargetConsistencyStates`
-- (mgmtd/src/bee_msg/change_target_consistency_states.rs, set_target_consistency_states.rs).
use beegfs_rust.Prelude.{
  ℕ, suc, ltb, ◌==◌, ◌&&◌, ◌||◌, if◌then◌else◌, Bool, true, false, Option, none, some, List, [],
  ◌∷◌, length,
}
use beegfs_rust.Result.{Result, ok, err, panicked, no_rows, length_mismatch, ◌>>=◌, ◌>>◌, ensure}
use beegfs_rust.Types.{NodeTypeServer, TargetConsistencyState}
use beegfs_rust.Message.TargetStates.{
  ChangeTargetConsistencyStates, ChangeTargetConsistencyStatesResp, SetTargetConsistencyStates,
  SetTargetConsistencyStatesResp,
}
use beegfs_rust.Db.Tables.{Target, find_target}
use beegfs_rust.Db.Target.{
  validate_ids, same_consistency, update_consistency_states, update_last_contact_times,
}
use beegfs_rust.Handlers.{Tables, App, write_tx, fail_on_pre_shutdown, try_from}

-- `OpsErr`
abbrev pub success : ℕ
success = 0

abbrev pub again : ℕ
again = 22

-- `Iterator::zip`
unfoldable pub zip : {A B : Type 0} → List A → List B → List (A × B)
zip [] bs = []
zip (a ∷ rest) [] = []
zip (a ∷ rest) (b ∷ bs) = (a, b) ∷ zip rest bs

-- The loop over the reported old states: whether all of them match.
unfoldable pub check_old_states :
    NodeTypeServer → List (ℕ × TargetConsistencyState) → List Target → Result Bool
unfolding find_target
check_old_states ty [] targets = ok true
check_old_states ty ((id, old) ∷ rest) targets = elim (find_target ty id targets) [
  | none ↦ err no_rows
  | some t ↦
      if same_consistency t.consistency old then check_old_states ty rest targets else ok false
]

-- The closure of the transaction: an error leaves what was written before it.
unfoldable pub change_states :
    ChangeTargetConsistencyStates
    → NodeTypeServer
    → ℕ
    → Tables
    → Result Bool
    → Result (Option ℕ × ℕ) × Tables
unfolding zip update_consistency_states
change_states msg node_type reachabilities_changed db panicked = (panicked, db)
change_states msg node_type reachabilities_changed db (err e) = (err e, db)
change_states msg node_type reachabilities_changed db (ok false) =
    (ok (none, reachabilities_changed), db)
change_states msg node_type reachabilities_changed db (ok true) =
    let (consistencies_changed, updated) =
      update_consistency_states node_type (zip msg.target_ids msg.new_states) db.targets in
    (ok (some consistencies_changed, reachabilities_changed), record db { targets = updated })

unfoldable pub change_tx :
    App → ChangeTargetConsistencyStates → Tables → Result (Option ℕ × ℕ) × Tables
unfolding check_old_states zip validate_ids update_last_contact_times change_states try_from
change_tx app msg db =
    elim (do
      node_type ← try_from msg.node_type
      validate_ids db.targets msg.target_ids node_type
      ok node_type)
      as (λ x. Result (Option ℕ × ℕ) × Tables) [
        | err e ↦ (err e, db)
        | panicked ↦ (panicked, db)
        | ok node_type ↦
            let (reachabilities_changed, (nodes, targets)) =
              update_last_contact_times app.now msg.target_ids node_type app.node_offline_timeout
                db.nodes db.targets in
            change_states msg node_type reachabilities_changed
              (record db { nodes = nodes; targets = targets })
              (check_old_states node_type (zip msg.target_ids msg.old_states) targets)
      ]

-- The response and the notification after the transaction.
unfoldable pub change_done : Option ℕ × ℕ → App → ChangeTargetConsistencyStatesResp × App
change_done (none, reachabilities_changed) app = (
  record { result = again },
  if ltb 0 reachabilities_changed
      then record app { notifications = suc app.notifications }
      else app,
)
change_done (some consistencies_changed, reachabilities_changed) app = (
  record { result = success },
  if ltb 0 consistencies_changed || ltb 0 reachabilities_changed
      then record app { notifications = suc app.notifications }
      else app,
)

unfoldable pub handle_change :
    ChangeTargetConsistencyStates → App → Result ChangeTargetConsistencyStatesResp × App
unfolding write_tx fail_on_pre_shutdown change_tx change_done
handle_change msg app =
    elim (do
      fail_on_pre_shutdown app
      ensure
          (length msg.target_ids == length msg.new_states
            && length msg.target_ids == length msg.old_states)
          length_mismatch) [
            | err e ↦ (err e, app)
            | panicked ↦ (panicked, app)
            | ok _ ↦
                let (result, app') = write_tx (change_tx app msg) app in
                elim result [
                  | err e ↦ (err e, app')
                  | panicked ↦ (panicked, app')
                  | ok changed ↦ let (resp, app'') = change_done changed app' in (ok resp, app'')
                ]
          ]

unfoldable pub set_tx :
    App → NodeTypeServer → SetTargetConsistencyStates → Tables → Result ℕ × Tables
unfolding zip validate_ids update_last_contact_times update_consistency_states
set_tx app node_type msg db =
    elim (validate_ids db.targets msg.target_ids node_type) as (λ x. Result ℕ × Tables) [
      | err e ↦ (err e, db)
      | panicked ↦ (panicked, db)
      | ok _ ↦
          let (nodes, targets) =
            if ltb 0 msg.set_online
            then (update_last_contact_times app.now msg.target_ids node_type
                app.node_offline_timeout db.nodes db.targets).1
            else (db.nodes, db.targets) in
          let (updated, targets') =
            update_consistency_states node_type (zip msg.target_ids msg.states) targets in
          (ok updated, record db { nodes = nodes; targets = targets' })
    ]

unfoldable pub handle_set :
    SetTargetConsistencyStates → App → Result SetTargetConsistencyStatesResp × App
unfolding write_tx fail_on_pre_shutdown try_from set_tx
handle_set msg app = elim (do fail_on_pre_shutdown app; try_from msg.node_type) [
  | err e ↦ (err e, app)
  | panicked ↦ (panicked, app)
  | ok node_type ↦
      let (result, app') = write_tx (set_tx app node_type msg) app in
      elim result [
        | err e ↦ (err e, app')
        | panicked ↦ (panicked, app')
        | ok _ ↦ (
          ok (record { result = success }),
          record app' { notifications = suc app'.notifications },
        )
      ]
]
