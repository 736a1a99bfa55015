-- ===== src/Handlers/ConsistencyLaws.antt =====
-- What the handlers of the consistency states guarantee (mgmtd/src/bee_msg/change_target_consistency_states.rs,
-- set_target_consistency_states.rs).
use beegfs_rust.Prelude.{
  ℕ, zero, suc, ◌≡◌, refl, ◌⊎◌, inl, inr, Option, none, some, List, [], ◌∷◌, map, arith,
}
use beegfs_rust.Result.{ok, Result-cases}
use beegfs_rust.Types.{NodeTypeServer, TargetConsistencyState}
use beegfs_rust.Message.TargetStates.{
  ChangeTargetConsistencyStates, ChangeTargetConsistencyStatesResp,
}
use beegfs_rust.Db.Tables.{Target, Node}
use beegfs_rust.Db.Target.{update_last_contact_times, update_last_update}
use beegfs_rust.Db.Target.Consistency.{update_consistency_states-zero}
use beegfs_rust.Handlers.{Tables, App, end_tx, write_tx, tx-cases, try_from}
use beegfs_rust.Handlers.ConsistencyStates.{
  again, zip, change_states, change_tx, change_done, handle_change,
}

abbrev pub consistencies : List Target → List TargetConsistencyState
consistencies = map (λ t. t.consistency)

contact-consistencies :
    (now : ℕ) (ids : List ℕ) (ty : NodeTypeServer) (timeout : ℕ) (nodes : List Node)
    (ts : List Target)
    → consistencies (update_last_contact_times now ids ty timeout nodes ts).1.1 ≡ consistencies ts
unfolding update_last_contact_times update_last_update
contact-consistencies now ids ty timeout nodes [] = refl
contact-consistencies now ids ty timeout nodes (t ∷ ts) =
    ground (arith, contact-consistencies now ids ty timeout nodes ts)

-- What a transaction that goes through has done.
change_tx_kept :
    (app : App) (msg : ChangeTargetConsistencyStates) {c : Option ℕ} {r : ℕ} {db : Tables}
    → change_tx app msg app.db ≡ (ok (c, r), db)
    → (c ≡ none) ⊎ (c ≡ some 0)
    → consistencies db.targets ≡ consistencies app.db.targets
unfolding change_tx change_states
change_tx_kept app msg {c = c} {r = r} {db = db} e kept =
    elim (Result-cases (try_from msg.node_type)) [
      | inl p ↦ absurd (ground (arith, p))
      | inr (inl (x, p)) ↦ absurd (ground (arith, p))
      | inr (inr (ty, p)) ↦
          let t =
            (update_last_contact_times app.now msg.target_ids ty app.node_offline_timeout
              app.db.nodes app.db.targets).1.1 in
          let changes = zip msg.target_ids msg.new_states in
          ground (
            arith,
            p,
            kept,
            contact-consistencies app.now msg.target_ids ty app.node_offline_timeout app.db.nodes
                app.db.targets,
            update_consistency_states-zero ty changes t,
          )
    ]

-- Every change of a consistency state is announced: after a response `AGAIN`, or if no notification
-- was sent, all consistency states are as before.
pub handle_change_silent :
    (msg : ChangeTargetConsistencyStates) (app : App) {resp : ChangeTargetConsistencyStatesResp}
    {app' : App}
    → handle_change msg app ≡ (ok resp, app')
    → (resp.result ≡ again) ⊎ (app'.notifications ≡ app.notifications)
    → consistencies app'.db.targets ≡ consistencies app.db.targets
unfolding handle_change write_tx end_tx change_done
handle_change_silent msg app e quiet = elim (tx-cases (change_tx app msg app.db)) [
  | inl (db, p) ↦ absurd (ground (arith, p))
  | inr (inl (r, (db, p))) ↦ absurd (ground (arith, p))
  | inr (inr ((none, r), (db, p))) ↦ ground (arith, p, change_tx_kept app msg p (inl refl))
  | inr (inr ((some zero, r), (db, p))) ↦ ground (arith, p, change_tx_kept app msg p (inr refl))
  | inr (inr ((some (suc n), r), (db, p))) ↦ absurd (ground (arith, p, quiet))
]
