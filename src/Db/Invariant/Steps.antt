-- ===== src/Db/Invariant/Steps.antt =====
-- The transactions on targets and buddy groups (mgmtd/src/db, mgmtd/src/grpc/assign_pool.rs) as steps
-- between stores, and what holds of every store that they lead to.
use beegfs_rust.Prelude.{ℕ, Option, List, [], ◌≡◌, subst, sym}
use beegfs_rust.Result.{Result, ok}
use beegfs_rust.Types.{NodeTypeServer, TargetConsistencyState}
use beegfs_rust.Db.Tables.{Target, TargetCapacities, BuddyGroup}
use beegfs_rust.Db.Target.{update_consistency_states, update_last_contact_times}
use beegfs_rust.Db.Target.Ids.{UniqueTargets}
use beegfs_rust.Db.BuddyGroup.{check_and_swap_buddies}
use beegfs_rust.Db.BuddyGroup.Switchover.{UniqueGroups}
use beegfs_rust.Db.Capacities.{get_and_update_capacities}
use beegfs_rust.Db.Store.{
  Store, insert_target, insert_storage, delete_storage_target, delete_storage_group,
}
use beegfs_rust.Db.Changes.{insert_group, update_storage_node_mappings, do_assign}
use beegfs_rust.Db.Invariant.{Inv, Disjoint}
use beegfs_rust.Db.Invariant.Targets.{
  rebuilt, Inserted-Inv, insert_target-Inserted, insert_storage-Inserted, delete_storage_target-Inv,
}
use beegfs_rust.Db.Invariant.Updates.{update_storage_node_mappings-Inv}
use beegfs_rust.Db.Invariant.Groups.{delete_storage_group-Inv}
use beegfs_rust.Db.Invariant.NewGroup.{insert_group-Inv}
use beegfs_rust.Db.Invariant.Swap.{check_and_swap_buddies-Inv}
use beegfs_rust.Db.Invariant.Pools.{do_assign-Inv}
use beegfs_rust.Db.Invariant.Contact.{
  update_consistency_states-Inv, update_last_contact_times-Inv, get_and_update_capacities-Inv,
}

-- A transaction that fails is rolled back, so only those that succeed are steps.
pub data Step (s : Store) : Store → Type 0 where
  target_inserted :
      (id : ℕ) (token : Option (List ℕ)) (ty : NodeTypeServer) (node : Option ℕ) {u : Unit {0}}
      {s' : Store}
      → insert_target id token ty node s ≡ ok (u, s')
      → Step s s'
  storage_inserted :
      (id : ℕ) (token : Option (List ℕ)) {n : ℕ} {s' : Store}
      → insert_storage id token s ≡ ok (n, s')
      → Step s s'
  target_deleted :
      (id : ℕ) {u : Unit {0}} {s' : Store} → delete_storage_target id s ≡ ok (u, s') → Step s s'
  nodes_mapped :
      (ids : List ℕ) (node : ℕ) {n : ℕ} {s' : Store}
      → update_storage_node_mappings ids node s ≡ ok (n, s')
      → Step s s'
  group_inserted :
      (id : ℕ) (alias : Option (List ℕ)) (ty : NodeTypeServer) (p_id s_id : ℕ) {made : ℕ × ℕ}
      {s' : Store}
      → insert_group id alias ty p_id s_id s ≡ ok (made, s')
      → Step s s'
  group_deleted :
      (id : ℕ) {u : Unit {0}} {s' : Store} → delete_storage_group id s ≡ ok (u, s') → Step s s'
  pool_assigned :
      (pool : ℕ) (targets groups : List ℕ) {u : Unit {0}} {s' : Store}
      → do_assign pool targets groups s ≡ ok (u, s')
      → Step s s'
  buddies_swapped :
      (now timeout : ℕ) {ks : List (ℕ × NodeTypeServer)} {gs : List BuddyGroup}
      → check_and_swap_buddies now timeout s.targets s.groups ≡ ok (ks, gs)
      → Step s (record s { groups = gs })
  consistency_updated :
      (ty : NodeTypeServer) (changes : List (ℕ × TargetConsistencyState))
      → Step s (record s { targets = (update_consistency_states ty changes s.targets).1 })
  contact_updated :
      (now : ℕ) (ids : List ℕ) (ty : NodeTypeServer) (timeout : ℕ)
      → Step s (record s {
        nodes = (update_last_contact_times now ids ty timeout s.nodes s.targets).1.0;
        targets = (update_last_contact_times now ids ty timeout s.nodes s.targets).1.1;
      })
  capacities_updated :
      (items : List (Result (ℕ × TargetCapacities))) (ty : NodeTypeServer)
      {old : List (ℕ × TargetCapacities)} {ts : List Target}
      → get_and_update_capacities items ty s.targets ≡ ok (old, ts)
      → Step s (record s { targets = ts })
  -- A statement on other tables only.
  other_tables : {s' : Store} → s'.targets ≡ s.targets → s'.groups ≡ s.groups → Step s s'

-- The stores that the steps lead to from empty tables of targets and groups.
pub data Reach : Store → Type 0 where
  start : (s : Store) → s.targets ≡ [] → s.groups ≡ [] → Reach s
  later : {s s' : Store} → Reach s → Step s s' → Reach s'

pub Step-Inv : {s s' : Store} → Step s s' → Inv s → Inv s'
Step-Inv {s = s} (target_inserted id token ty node e) inv =
    Inserted-Inv (insert_target-Inserted id token ty node s e) inv
Step-Inv {s = s} (storage_inserted id token e) inv =
    Inserted-Inv (insert_storage-Inserted id token s e) inv
Step-Inv {s = s} (target_deleted id e) inv = delete_storage_target-Inv id s e inv
Step-Inv {s = s} (nodes_mapped ids node e) inv = update_storage_node_mappings-Inv ids node s e inv
Step-Inv {s = s} (group_inserted id alias ty p_id s_id e) inv =
    insert_group-Inv id alias ty p_id s_id s e inv
Step-Inv {s = s} (group_deleted id e) inv = delete_storage_group-Inv id s e inv
Step-Inv {s = s} (pool_assigned pool targets groups e) inv =
    do_assign-Inv pool targets groups s e inv
Step-Inv {s = s} (buddies_swapped now timeout e) inv =
    check_and_swap_buddies-Inv now timeout s e inv
Step-Inv {s = s} (consistency_updated ty changes) inv =
    update_consistency_states-Inv ty changes s inv
Step-Inv {s = s} (contact_updated now ids ty timeout) inv =
    update_last_contact_times-Inv now ids ty timeout s inv
Step-Inv {s = s} (capacities_updated items ty e) inv =
    get_and_update_capacities-Inv items ty s e inv
Step-Inv (other_tables t g) inv = rebuilt inv t g inv.unique_targets inv.visible inv.agree

-- In every store that the transactions lead to, the invariant holds: the ids of targets and of groups are
-- unique, every group has two different targets that exist and that no other group has, and the targets
-- of a storage group are in the pool of the group.
pub Reach-Inv : {s : Store} → Reach s → Inv s
Reach-Inv (start s t g) = record {
  unique_targets = subst UniqueTargets (sym t) tt;
  unique_groups = subst UniqueGroups (sym g) tt;
  disjoint = subst Disjoint (sym g) tt;
  visible = rw g tt;
  agree = rw g tt;
}
Reach-Inv (later r st) = Step-Inv st (Reach-Inv r)
