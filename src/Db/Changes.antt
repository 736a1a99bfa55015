-- ===== src/Db/Changes.antt =====
-- Creating buddy groups and moving targets and groups between pools and nodes: `buddy_group::insert`
-- (mgmtd/src/db/buddy_group.rs), `target::update_...` (mgmtd/src/db/target.rs) and `do_assign`
-- (mgmtd/src/grpc/assign_pool.rs).
use beegfs_rust.Prelude.{
  ℕ, suc, ◌+◌, ltb, ◌==◌, ◌&&◌, ◌||◌, not, if◌then◌else◌, Bool, true, false, Option, none, some,
  List, [], ◌∷◌, ◌++◌, map,
}
use beegfs_rust.Result.{
  Result, ok, err, value_exists, constraint, in_group, other_pool, owns_root, no_column, no_rows,
  ◌>>=◌, ◌>>◌, ensure,
}
use beegfs_rust.Types.{NodeTypeServer}
use beegfs_rust.Entities.{Entities, EntityType, get_alias, user_str, codes, decimal}
use beegfs_rust.Entities
use beegfs_rust.Db.Tables.{
  Target, BuddyGroup, sql_variant, has_target_id, has_group_id, find_target,
}
use beegfs_rust.Db.Misc.{find_new_id}
use beegfs_rust.Db.Target.{validate_ids, count}
use beegfs_rust.Db.Store.{
  Store, RootInode, on_target, group_ids, has_pool, has_node_id, has_target, has_group, has_member,
  count_groups, is_storage,
}

-- A row of the view `buddy_groups_ext`: both targets exist.
abbrev pub visible : List Target → BuddyGroup → Bool
visible targets g =
    has_target g.node_type g.p_target_id targets && has_target g.node_type g.s_target_id targets

-- `SELECT pool_id FROM storage_targets WHERE target_id = ?1`, read as a number.
unfoldable pub storage_pool_of : ℕ → List Target → Result ℕ
unfolding find_target
storage_pool_of i targets = elim (find_target NodeTypeServer.storage i targets) [
  | none ↦ err no_rows
  | some t ↦ elim t.pool_id [ none ↦ err no_column | some p ↦ ok p ]
]

abbrev pub root_is : ℕ → RootInode → Bool
root_is i (on_target j) = i == j
root_is i _ = false

-- The conditions on the two targets.
unfoldable pub check_members : NodeTypeServer → ℕ → ℕ → Store → Result (Unit {0})
unfolding count_groups storage_pool_of has_target
check_members ty p s_id s = do
  validate_ids s.targets (p ∷ s_id ∷ []) ty
  ensure
      (not (
        ltb 0 (
          count_groups (λ g. visible s.targets g && (has_member ty p g || has_member ty s_id g))
            s.groups)))
      in_group
  (if is_storage ty
      then (do
        p_pool ← storage_pool_of p s.targets
        s_pool ← storage_pool_of s_id s.targets
        ensure (p_pool == s_pool) other_pool)
      else ok tt)
  ensure (is_storage ty || not (root_is s_id s.root_inode)) owns_root

-- The id: given and not taken, or a new one.
unfoldable pub choose_group_id : ℕ → NodeTypeServer → Store → Result ℕ
unfolding group_ids has_group has_target count_groups
choose_group_id group_id ty s =
    if group_id == 0
    then find_new_id (group_ids ty s.groups) 1 0xffff
    else if ltb 0 (count_groups (λ g. has_group_id ty group_id g && visible s.targets g) s.groups)
    then err value_exists
    else ok group_id

-- `buddy_group::insert`, with the key and the foreign keys of the INSERT.
unfoldable pub insert_group :
    ℕ → Option (List ℕ) → NodeTypeServer → ℕ → ℕ → Store → Result ((ℕ × ℕ) × Store)
unfolding check_members choose_group_id storage_pool_of has_group has_target
insert_group group_id alias ty p s_id s = do
  id ← choose_group_id group_id ty s
  check_members ty p s_id s
  alias' ← elim alias [
    | some a ↦ ok a
    | none ↦ Entities.try_from (codes "buddy_group_" ++ user_str ty ++ codes "_" ++ decimal id)
  ]
  (uid, entities) ← Entities.insert EntityType.buddy_group alias' s.entities
  pool ← (if is_storage ty then (do q ← storage_pool_of p s.targets; ok (some q)) else ok none)
  ensure (not (has_group ty id s.groups)) constraint
  ensure (has_target ty p s.targets && has_target ty s_id s.targets) constraint
  ok (
    (uid, id),
    record s {
      entities = entities;
      groups =
          record {
            group_uid = uid;
            node_type = ty;
            group_id = id;
            p_target_id = p;
            s_target_id = s_id;
            pool_id = pool;
          }
          ∷ s.groups;
    },
  )

-- An UPDATE of the pool of the rows that satisfy a test; the foreign key is one into storage pools.
abbrev pub set_target_pool : (Target → Bool) → ℕ → Target → Target
set_target_pool test pool t = if test t then record t { pool_id = some pool } else t

abbrev pub set_group_pool : (BuddyGroup → Bool) → ℕ → BuddyGroup → BuddyGroup
set_group_pool test pool g = if test g then record g { pool_id = some pool } else g

unfoldable pub all_storage : (Target → Bool) → List Target → Bool
all_storage test [] = true
all_storage test (t ∷ ts) = (not (test t) || is_storage t.node_type) && all_storage test ts

unfoldable pub all_storage_groups : (BuddyGroup → Bool) → List BuddyGroup → Bool
all_storage_groups test [] = true
all_storage_groups test (g ∷ gs) =
    (not (test g) || is_storage g.node_type) && all_storage_groups test gs

-- `update_storage_node_mappings`: the UPDATEs one after the other, with their counts.
unfoldable pub map_node : ℕ → ℕ → List Target → ℕ × List Target
map_node node i [] = (0, [])
map_node node i (t ∷ ts) =
    let (updated, rest) = map_node node i ts in
    if has_target_id NodeTypeServer.storage i t
    then (suc updated, record t { node_id = some node } ∷ rest)
    else (updated, t ∷ rest)

unfoldable pub update_storage_node_mappings : List ℕ → ℕ → Store → Result (ℕ × Store)
unfolding map_node has_node_id
update_storage_node_mappings [] node s = ok (0, s)
update_storage_node_mappings (i ∷ ids) node s = do
  let (here, targets) = map_node node i s.targets
  ensure (here == 0 || has_node_id NodeTypeServer.storage node s.nodes) constraint
  (later, s') ← update_storage_node_mappings ids node (record s { targets = targets })
  ok (here + later, s')

-- `do_assign` on the uids that the ids resolve to.
unfoldable pub assign_target : ℕ → ℕ → Store → Result (Unit {0} × Store)
unfolding count_groups find_target all_storage has_pool
assign_target pool uid s = do
  ensure
      (not (
        ltb 0 (
          count_groups
            (λ g.
              is_storage g.node_type
              && (visible s.targets g
                  && (ltb 0 (
                      count
                        (λ t.
                          has_member g.node_type t.target_id g
                          && (sql_variant t.node_type == sql_variant g.node_type
                              && t.target_uid == uid))
                        s.targets))))
            s.groups)))
      in_group
  ensure (all_storage (λ t. t.target_uid == uid) s.targets) constraint
  ensure (count (λ t. t.target_uid == uid) s.targets == 0 || has_pool pool s.pools) constraint
  ok (tt, record s { targets = map (set_target_pool (λ t. t.target_uid == uid) pool) s.targets })

unfoldable pub assign_targets : ℕ → List ℕ → Store → Result (Unit {0} × Store)
unfolding assign_target
assign_targets pool [] s = ok (tt, s)
assign_targets pool (uid ∷ uids) s = do
  (_, s') ← assign_target pool uid s
  assign_targets pool uids s'

-- The targets of the groups with the uid.
abbrev pub member_of_uid : ℕ → Store → Target → Bool
member_of_uid uid s t = ltb 0 (
    count_groups
      (λ g. g.group_uid == uid && (visible s.targets g && has_member t.node_type t.target_id g))
      s.groups)

unfoldable pub assign_group : ℕ → ℕ → Store → Result (Unit {0} × Store)
unfolding count_groups all_storage all_storage_groups has_pool
assign_group pool uid s = do
  ensure (all_storage_groups (λ g. g.group_uid == uid) s.groups) constraint
  ensure (count_groups (λ g. g.group_uid == uid) s.groups == 0 || has_pool pool s.pools) constraint
  ensure (all_storage (member_of_uid uid s) s.targets) constraint
  ok (
    tt,
    record s {
      groups = map (set_group_pool (λ g. g.group_uid == uid) pool) s.groups;
      targets = map (set_target_pool (member_of_uid uid s) pool) s.targets;
    },
  )

unfoldable pub assign_groups : ℕ → List ℕ → Store → Result (Unit {0} × Store)
unfolding assign_group
assign_groups pool [] s = ok (tt, s)
assign_groups pool (uid ∷ uids) s = do (_, s') ← assign_group pool uid s; assign_groups pool uids s'

unfoldable pub do_assign : ℕ → List ℕ → List ℕ → Store → Result (Unit {0} × Store)
unfolding assign_targets assign_groups
do_assign pool targets groups s = do
  (_, s') ← assign_targets pool targets s
  assign_groups pool groups s'
