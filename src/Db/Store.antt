-- ===== src/Db/Store.antt =====
-- The tables of targets, buddy groups and pools together, and the operations of mgmtd/src/db that
-- insert and delete rows. A constraint of the schema that a statement violates is an error.
use beegfs_rust.Prelude.{
  ℕ, suc, ltb, ◌==◌, ◌&&◌, ◌||◌, not, if◌then◌else◌, Bool, true, false, Option, none, some, List,
  [], ◌∷◌, ◌++◌,
}
use beegfs_rust.Result.{Result, ok, constraint, zero_id, ◌>>=◌, ◌>>◌, ensure}
use beegfs_rust.Types.{NodeTypeServer, TargetConsistencyState}
use beegfs_rust.Entities.{Entities, EntityType, get_alias, user_str, codes, decimal}
use beegfs_rust.Entities
use beegfs_rust.Db.Tables.{
  Target, BuddyGroup, Node, sql_variant, node_sql_variant, has_target_id, has_group_id,
  check_affected_rows, no_capacities,
}
use beegfs_rust.Db.Misc.{find_new_id}
use beegfs_rust.Db.Target.{count}

-- A row of `pools`, all of which are storage pools.
pub record Pool : Type 0 where
  pub pool_uid : ℕ
  pub pool_id : ℕ

-- The only row of `root_inode`.
pub data RootInode : Type 0 where
  unknown : RootInode
  on_target : ℕ → RootInode
  on_group : ℕ → RootInode

pub record Store : Type 0 where
  pub entities : Entities
  pub nodes : List Node
  pub targets : List Target
  pub groups : List BuddyGroup
  pub pools : List Pool
  pub root_inode : RootInode

-- `SELECT field FROM targets WHERE node_type = ty`, and of `buddy_groups`.
unfoldable pub target_ids : NodeTypeServer → List Target → List ℕ
target_ids ty [] = []
target_ids ty (t ∷ ts) =
    let rest = target_ids ty ts in
    if sql_variant t.node_type == sql_variant ty then t.target_id ∷ rest else rest

unfoldable pub group_ids : NodeTypeServer → List BuddyGroup → List ℕ
group_ids ty [] = []
group_ids ty (g ∷ gs) =
    let rest = group_ids ty gs in
    if sql_variant g.node_type == sql_variant ty then g.group_id ∷ rest else rest

unfoldable pub has_pool : ℕ → List Pool → Bool
has_pool i [] = false
has_pool i (p ∷ ps) = p.pool_id == i || has_pool i ps

unfoldable pub has_node_id : NodeTypeServer → ℕ → List Node → Bool
has_node_id ty i [] = false
has_node_id ty i (n ∷ ns) =
    (node_sql_variant n.node_type == sql_variant ty && n.node_id == i) || has_node_id ty i ns

unfoldable pub has_target : NodeTypeServer → ℕ → List Target → Bool
has_target ty i [] = false
has_target ty i (t ∷ ts) = has_target_id ty i t || has_target ty i ts

unfoldable pub has_group : NodeTypeServer → ℕ → List BuddyGroup → Bool
has_group ty i [] = false
has_group ty i (g ∷ gs) = has_group_id ty i g || has_group ty i gs

-- The target with a given type and id is a member of the group.
abbrev pub has_member : NodeTypeServer → ℕ → BuddyGroup → Bool
has_member ty i g =
    sql_variant g.node_type == sql_variant ty && (g.p_target_id == i || g.s_target_id == i)

unfoldable pub in_some_group : NodeTypeServer → ℕ → List BuddyGroup → Bool
in_some_group ty i [] = false
in_some_group ty i (g ∷ gs) = has_member ty i g || in_some_group ty i gs

abbrev pub is_storage : NodeTypeServer → Bool
is_storage NodeTypeServer.storage = true
is_storage NodeTypeServer.meta = false

-- `target::insert`, with the checks of the INSERT: the key and both foreign keys.
unfoldable pub insert_target :
    ℕ → Option (List ℕ) → NodeTypeServer → Option ℕ → Store → Result (Unit {0} × Store)
unfolding has_target has_pool has_node_id
insert_target target_id reg_token ty node_id s = do
  ensure (ltb 0 target_id) zero_id
  alias ← Entities.try_from (codes "target_" ++ user_str ty ++ codes "_" ++ decimal target_id)
  (uid, entities) ← Entities.insert EntityType.target alias s.entities
  ensure (not (has_target ty target_id s.targets)) constraint
  ensure (elim node_id as (λ x. Bool) [ none ↦ true | some n ↦ has_node_id ty n s.nodes ])
      constraint
  ensure (not (is_storage ty) || has_pool 1 s.pools) constraint
  ok (
    tt,
    record s {
      entities = entities;
      targets =
          record {
            target_uid = uid;
            node_type = ty;
            target_id = target_id;
            node_id = node_id;
            pool_id = if is_storage ty then some 1 else none;
            consistency = TargetConsistencyState.good;
            last_update = 0;
            reg_token = reg_token;
            capacities = no_capacities;
          }
          ∷ s.targets;
    },
  )

unfoldable pub insert_storage : ℕ → Option (List ℕ) → Store → Result (ℕ × Store)
unfolding target_ids insert_target
insert_storage target_id reg_token s = do
  id ←
      (if target_id == 0
        then find_new_id (target_ids NodeTypeServer.storage s.targets) 1 0xffff
        else ok target_id)
  (_, s') ← insert_target id reg_token NodeTypeServer.storage none s
  ok (id, s')

-- The rows that a DELETE leaves.
unfoldable pub without_target : NodeTypeServer → ℕ → List Target → List Target
without_target ty i [] = []
without_target ty i (t ∷ ts) =
    let rest = without_target ty i ts in if has_target_id ty i t then rest else t ∷ rest

unfoldable pub without_group : NodeTypeServer → ℕ → List BuddyGroup → List BuddyGroup
without_group ty i [] = []
without_group ty i (g ∷ gs) =
    let rest = without_group ty i gs in if has_group_id ty i g then rest else g ∷ rest

unfoldable pub count_groups : (BuddyGroup → Bool) → List BuddyGroup → ℕ
count_groups p [] = 0
count_groups p (g ∷ gs) = let rest = count_groups p gs in if p g then suc rest else rest

-- The trigger deletes the entity of each deleted row.
unfoldable pub deleted_targets : NodeTypeServer → ℕ → List Target → Entities → Entities
deleted_targets ty i [] es = es
deleted_targets ty i (t ∷ ts) es =
    let rest = deleted_targets ty i ts es in
    if has_target_id ty i t
    then record rest { rows = Entities.delete t.target_uid rest.rows }
    else rest

unfoldable pub deleted_groups : NodeTypeServer → ℕ → List BuddyGroup → Entities → Entities
deleted_groups ty i [] es = es
deleted_groups ty i (g ∷ gs) es =
    let rest = deleted_groups ty i gs es in
    if has_group_id ty i g
    then record rest { rows = Entities.delete g.group_uid rest.rows }
    else rest

-- `target::delete_storage`: the foreign keys of `buddy_groups` refuse the target of a group. The root
-- inode is on a meta target.
unfoldable pub delete_storage_target : ℕ → Store → Result (Unit {0} × Store)
unfolding without_target count in_some_group deleted_targets
delete_storage_target i s = do
  ensure (not (in_some_group NodeTypeServer.storage i s.groups)) constraint
  check_affected_rows (count (has_target_id NodeTypeServer.storage i) s.targets)
  ok (
    tt,
    record s {
      entities = deleted_targets NodeTypeServer.storage i s.targets s.entities;
      targets = without_target NodeTypeServer.storage i s.targets;
    },
  )

-- `buddy_group::delete_storage`
unfoldable pub delete_storage_group : ℕ → Store → Result (Unit {0} × Store)
unfolding without_group count_groups deleted_groups
delete_storage_group i s = do
  check_affected_rows (count_groups (has_group_id NodeTypeServer.storage i) s.groups)
  ok (
    tt,
    record s {
      entities = deleted_groups NodeTypeServer.storage i s.groups s.entities;
      groups = without_group NodeTypeServer.storage i s.groups;
    },
  )
