-- ===== src/Db/Target.antt =====
-- Targets (mgmtd/src/db/target.rs) and the times of their last contact (mgmtd/src/bee_msg/common.rs).
pub mod Ids
pub mod Consistency
use beegfs_rust.Prelude.{
  ℕ, zero, suc, ◌+◌, ◌/◌, leb, ltb, ◌==◌, ◌&&◌, ◌||◌, not, if◌then◌else◌, Bool, true, false, Option,
  none, some, List, [], ◌∷◌, length, map,
}
use beegfs_rust.Result.{Result, ok, err, value_not_found, multiple_matches, ◌>>=◌, ◌>>◌}
use beegfs_rust.Types.{
  NodeTypeServer, TargetConsistencyState, TargetReachabilityState, target_consistency_state,
}
use beegfs_rust.Db.Tables.{Target, BuddyGroup, Node, sql_variant, has_target_id, node_sql_variant}
use beegfs_rust.Db.Misc.{member}

-- `target_id IN rarray(ids) AND node_type = ty`
abbrev pub selected : NodeTypeServer → List ℕ → Target → Bool
selected ty ids t = sql_variant t.node_type == sql_variant ty && member t.target_id ids

-- `SELECT COUNT(*)`
unfoldable pub count : (Target → Bool) → List Target → ℕ
count p [] = 0
count p (t ∷ ts) = let rest = count p ts in if p t then suc rest else rest

unfoldable pub validate_ids : List Target → List ℕ → NodeTypeServer → Result (Unit {0})
unfolding count
validate_ids targets ids ty =
    let n = count (selected ty ids) targets in
    if ltb n (length ids)
    then err value_not_found
    else if ltb (length ids) n
    then err multiple_matches
    else ok tt

-- The state as its number in the database.
abbrev pub consistency_variant : TargetConsistencyState → ℕ
consistency_variant TargetConsistencyState.good = 1
consistency_variant TargetConsistencyState.needs_resync = 2
consistency_variant TargetConsistencyState.bad = 3

abbrev pub same_consistency : TargetConsistencyState → TargetConsistencyState → Bool
same_consistency a b = consistency_variant a == consistency_variant b

-- One UPDATE, with the number of rows that it affects: those in another state.
unfoldable pub update_consistency_state :
    NodeTypeServer → ℕ × TargetConsistencyState → List Target → ℕ × List Target
update_consistency_state ty e [] = (0, [])
update_consistency_state ty e (t ∷ ts) =
    let (updated, rest) = update_consistency_state ty e ts in
    if not (same_consistency t.consistency e.1) && has_target_id ty e.0 t
    then (suc updated, record t { consistency = e.1 } ∷ rest)
    else (updated, t ∷ rest)

unfoldable pub update_consistency_states :
    NodeTypeServer → List (ℕ × TargetConsistencyState) → List Target → ℕ × List Target
unfolding update_consistency_state
update_consistency_states ty [] targets = (0, targets)
update_consistency_states ty (e ∷ changes) targets =
    let (here, targets1) = update_consistency_state ty e targets in
    let (later, targets2) = update_consistency_states ty changes targets1 in
    (here + later, targets2)

-- `update_last_contact_times`: the nodes of the targets, by the join of `targets_ext`.
abbrev pub owns : Node → Target → Bool
owns n t =
    node_sql_variant n.node_type == sql_variant t.node_type
    && elim t.node_id as (λ x. Bool) [ none ↦ false | some i ↦ i == n.node_id ]

unfoldable pub update_last_contact : ℕ → NodeTypeServer → List ℕ → List Target → Node → Node
unfolding count
update_last_contact now ty ids targets n =
    if ltb 0 (count (λ t. selected ty ids t && owns n t) targets)
    then record n { last_contact = now }
    else n

unfoldable pub update_last_update : ℕ → NodeTypeServer → List ℕ → Target → Target
update_last_update now ty ids t = if selected ty ids t then record t { last_update = now } else t

-- `last_update < now - offline_timeout / 2`, in signed integers.
unfoldable pub update_last_contact_times :
    ℕ → List ℕ → NodeTypeServer → ℕ → List Node → List Target → ℕ × (List Node × List Target)
unfolding update_last_contact update_last_update count
update_last_contact_times now ids ty offline_timeout nodes targets = (
  count (λ t. selected ty ids t && ltb (t.last_update + offline_timeout / 2) now) targets,
  (map (update_last_contact now ty ids targets) nodes, map (update_last_update now ty ids) targets),
)
