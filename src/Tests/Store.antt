-- ===== src/Tests/Store.antt =====
-- A run of the transactions (mgmtd/src/db): two targets are registered, mapped to a node, grouped, moved
-- to another pool and swapped. And a run of the table of entities.
use beegfs_rust.Prelude.{ℕ, if◌then◌else◌, false, none, some, List, [], ◌∷◌, map, ◌≡◌, ◌↔◌, refl}
use beegfs_rust.Result.{Result, ok, err, in_group}
use beegfs_rust.Types.{NodeType, NodeTypeServer}
use beegfs_rust.Entities.{
  Entities, EntityType, all_alias_chars, is_match, same_bytes, get_uid, get_alias, digits, codes,
  user_str, decimal, rename, update_alias,
}
use beegfs_rust.Entities
use beegfs_rust.Entities.Lookup.{get_uid-get_alias}
use beegfs_rust.Entities.Unique
use beegfs_rust.Db.Tables.{find_target}
use beegfs_rust.Db.Misc.{member, min_successor, find_new_id}
use beegfs_rust.Db.Target.{count, validate_ids}
use beegfs_rust.Db.States.{State, get_targets_with_states}
use beegfs_rust.Db.Store.{
  Store, unknown, target_ids, group_ids, has_pool, has_node_id, has_target, has_group, count_groups,
  in_some_group, insert_target, insert_storage,
}
use beegfs_rust.Db.Changes.{
  storage_pool_of, check_members, choose_group_id, insert_group, map_node,
  update_storage_node_mappings, all_storage, all_storage_groups, assign_target, assign_targets,
  assign_group, assign_groups, do_assign,
}
use beegfs_rust.Db.Invariant.{Inv}
use beegfs_rust.Db.Invariant.Steps.{
  Reach, start, later, storage_inserted, nodes_mapped, group_inserted, pool_assigned, Reach-Inv,
}
use beegfs_rust.Db.Invariant.Once.{on_node, times, reported_once}

abbrev empty_store : Store
empty_store = record {
  entities = record { rows = []; next_uid = 10 };
  nodes = record { node_uid = 3; node_type = NodeType.storage; node_id = 5; last_contact = 0 } ∷ [];
  targets = [];
  groups = [];
  pools = record { pool_uid = 1; pool_id = 1 } ∷ record { pool_uid = 2; pool_id = 8 } ∷ [];
  root_inode = unknown;
}

-- The store of a result.
abbrev store_of : {R : Type 0} → Result (R × Store) → Store
store_of (ok (r, s)) = s
store_of _ = empty_store

abbrev one_target : Store
unfolding insert_storage
one_target = store_of (insert_storage 1 none empty_store)

abbrev two_targets : Store
unfolding insert_storage
two_targets = store_of (insert_storage 0 none one_target)

abbrev mapped : Store
unfolding update_storage_node_mappings
mapped = store_of (update_storage_node_mappings (1 ∷ 2 ∷ []) 5 two_targets)

abbrev grouped : Store
unfolding insert_group
grouped = store_of (insert_group 7 none NodeTypeServer.storage 1 2 mapped)

-- The group of the uid 12 is moved to the pool 8.
abbrev moved : Store
unfolding do_assign
moved = store_of (do_assign 8 [] (12 ∷ []) grouped)

run : Reach moved
unfolding insert_storage insert_target all_alias_chars is_match same_bytes get_uid digits target_ids
    group_ids has_pool has_node_id has_target has_group in_some_group member min_successor
    find_new_id count validate_ids find_target storage_pool_of check_members choose_group_id
    insert_group count_groups map_node update_storage_node_mappings all_storage all_storage_groups
    assign_target assign_targets assign_group assign_groups do_assign Entities.try_from
    Entities.insert
run =
    later
      (later
        (later
          (later
            (later (start empty_store refl refl) (storage_inserted 1 none {s' = one_target} refl))
            (storage_inserted 0 none {s' = two_targets} refl))
          (nodes_mapped (1 ∷ 2 ∷ []) 5 {s' = mapped} refl))
        (group_inserted 7 none NodeTypeServer.storage 1 2 {s' = grouped} refl))
      (pool_assigned 8 [] (12 ∷ []) {s' = moved} refl)

Reach-Inv_example : Inv moved
Reach-Inv_example = Reach-Inv run

-- The target 2 is in the group 7 already.
second_group : insert_group 0 none NodeTypeServer.storage 2 1 grouped ≡ err in_group
unfolding insert_group choose_group_id min_successor member find_new_id group_ids check_members
    validate_ids count count_groups storage_pool_of has_target find_target mapped two_targets
    Entities.try_from digits Entities.insert
second_group = refl

reported_once_example :
    (states : List State) × ((get_targets_with_states 30 false NodeTypeServer.storage 60
          mapped.nodes mapped.groups mapped.targets
        ≡ ok states)
      × ((i : ℕ)
          → times i (map (λ x. x.0) states)
            ≡ (if on_node NodeTypeServer.storage i mapped.nodes mapped.targets then 1 else 0)))
unfolding insert_storage insert_target all_alias_chars is_match same_bytes get_uid digits target_ids
    has_pool has_node_id has_target in_some_group member min_successor find_new_id map_node
    update_storage_node_mappings Entities.try_from Entities.insert
reported_once_example =
    reported_once 30 false NodeTypeServer.storage 60
      (later
        (later
          (later (start empty_store refl refl) (storage_inserted 1 none {s' = one_target} refl))
          (storage_inserted 0 none {s' = two_targets} refl))
        (nodes_mapped (1 ∷ 2 ∷ []) 5 {s' = mapped} refl))
      (tt, tt) (refl, (refl, tt))

abbrev named : Entities
named = record {
  rows = record { uid = 4; entity_type = EntityType.pool; alias = codes "fast" } ∷ [];
  next_uid = 5;
}

abbrev renamed : Entities
renamed = record {
  rows = record { uid = 4; entity_type = EntityType.pool; alias = codes "slow" } ∷ [];
  next_uid = 5;
}

get_uid-get_alias_example :
    (get_uid (codes "slow") renamed.rows ≡ some 4)
    ↔ (get_alias 4 renamed.rows ≡ some (codes "slow"))
unfolding Entities.insert get_uid update_alias rename same_bytes
get_uid-get_alias_example = get_uid-get_alias (codes "slow") 4 {s = renamed} (
    Unique.renamed 4 NodeType.storage (codes "slow") {s = named} {s' = renamed}
      (Unique.inserted EntityType.pool (codes "fast") {s' = named} {uid = 4} (Unique.start 4) refl)
      refl)
