-- ===== src/Handlers.antt =====
-- Message handlers of the management (mgmtd/src/bee_msg.rs) and the state that they share.
pub mod ConsistencyStates
pub mod ConsistencyLaws
pub mod SetLaws
use beegfs_rust.Prelude.{ℕ, Bool, true, false, not, List, ◌≡◌, refl, ◌⊎◌, inl, inr}
use beegfs_rust.Result.{Result, Error, ok, err, panicked, join_error, no_server_type, ensure}
use beegfs_rust.Types.{NodeType, NodeTypeServer}
use beegfs_rust.Db.Tables.{Node, Target, BuddyGroup}

pub record Tables : Type 0 where
  pub nodes : List Node
  pub targets : List Target
  pub groups : List BuddyGroup

-- What a handler sees of the application. `notifications` counts `send_notifications`.
pub record App : Type 0 where
  pub db : Tables
  pub is_pre_shutdown : Bool
  pub node_offline_timeout : ℕ
  pub now : ℕ
  pub notifications : ℕ

-- `write_tx` (sqlite/src/connection.rs): the closure works on the tables of the transaction. They are
-- committed after a success; else the transaction is dropped, and the tables of before are back. A panic in the
-- closure ends its thread, and is an error for the caller.
unfoldable pub end_tx : {A : Type 0} → App → Result A × Tables → Result A × App
end_tx app (ok a, db) = (ok a, record app { db = db })
end_tx app (err e, db) = (err e, app)
end_tx app (panicked, db) = (err join_error, app)

unfoldable pub write_tx : {A : Type 0} → (Tables → Result A × Tables) → App → Result A × App
unfolding end_tx
write_tx op app = end_tx app (op app.db)

-- To split on what the closure has left.
pub tx-cases :
    {A : Type 0} (x : Result A × Tables)
    → ((db : Tables) × (x ≡ (panicked, db)))
      ⊎ (((e : Error) × ((db : Tables) × (x ≡ (err e, db))))
          ⊎ ((a : A) × ((db : Tables) × (x ≡ (ok a, db)))))
tx-cases (panicked, db) = inl (db, refl)
tx-cases (err e, db) = inr (inl (e, (db, refl)))
tx-cases (ok a, db) = inr (inr (a, (db, refl)))

unfoldable pub fail_on_pre_shutdown : App → Result (Unit {0})
fail_on_pre_shutdown app = ensure (not app.is_pre_shutdown) Error.pre_shutdown

-- `TryFrom<NodeType> for NodeTypeServer` (shared/src/types.rs)
unfoldable pub try_from : NodeType → Result NodeTypeServer
try_from NodeType.meta = ok NodeTypeServer.meta
try_from NodeType.storage = ok NodeTypeServer.storage
try_from _ = err no_server_type
