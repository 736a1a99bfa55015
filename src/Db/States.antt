-- ===== src/Db/States.antt =====
-- `get_targets_with_states` (mgmtd/src/bee_msg/common.rs): the states that are reported.
pub mod Reported
pub mod Contact
use beegfs_rust.Prelude.{
  ℕ, zero, suc, ◌+◌, ◌-◌, ◌*◌, ◌/◌, leb, ltb, ◌==◌, ◌&&◌, ◌||◌, not, if◌then◌else◌, Bool, true,
  false, Option, none, some, List, [], ◌∷◌, ◌++◌, replicate,
}
use beegfs_rust.Result.{Result, ok, err, out_of_range, ◌>>=◌}
use beegfs_rust.Types.{NodeTypeServer, TargetConsistencyState, TargetReachabilityState}
use beegfs_rust.Db.Tables.{Node, Target, BuddyGroup, sql_variant}
use beegfs_rust.Db.Target.{owns}

-- `age` and the timeout are whole seconds: `age > timeout / 2` as durations is `timeout < 2 * age`.
unfoldable pub reachability : Bool → Bool → Bool → ℕ → ℕ → TargetReachabilityState
reachability pre_shutdown is_primary is_secondary age timeout =
    if not pre_shutdown || is_secondary
    then (if not is_primary && ltb timeout age
        then TargetReachabilityState.offline
        else if ltb timeout (2 * age)
        then TargetReachabilityState.probably_offline
        else TargetReachabilityState.online)
    else TargetReachabilityState.probably_offline

-- The number of rows of `buddy_groups` that a LEFT JOIN finds.
unfoldable pub groups_with : (BuddyGroup → ℕ) → Target → List BuddyGroup → ℕ
groups_with member_of t [] = 0
groups_with member_of t (g ∷ gs) =
    let rest = groups_with member_of t gs in
    if member_of g == t.target_id && sql_variant g.node_type == sql_variant t.node_type
    then suc rest
    else rest

abbrev pub primary_in : Target → List BuddyGroup → ℕ
primary_in = groups_with (λ g. g.p_target_id)

abbrev pub secondary_in : Target → List BuddyGroup → ℕ
secondary_in = groups_with (λ g. g.s_target_id)

-- The number of rows of `nodes` that the INNER JOIN finds.
unfoldable pub nodes_of : Target → List Node → ℕ
nodes_of t [] = 0
nodes_of t (n ∷ ns) = let rest = nodes_of t ns in if owns n t then suc rest else rest

abbrev pub State : Type 0
State = ℕ × (TargetConsistencyState × TargetReachabilityState)

-- A LEFT JOIN without a match gives one row.
abbrev pub joined : ℕ → ℕ
joined n = if n == 0 then 1 else n

-- The closure on a row: an age below zero is no `u64`; it is read only where it is needed.
unfoldable pub row_state : ℕ → Bool → ℕ → List BuddyGroup → Target → Result State
unfolding reachability groups_with
row_state now pre_shutdown timeout groups t =
    let is_primary = ltb 0 (primary_in t groups) in
    let is_secondary = ltb 0 (secondary_in t groups) in
    if (not pre_shutdown || is_secondary) && ltb now t.last_update
    then err out_of_range
    else ok (
      t.target_id,
      (
        t.consistency,
        reachability pre_shutdown is_primary is_secondary (now - t.last_update) timeout,
      ),
    )

-- A row for each combination of the joins. The query has no ORDER BY: the order of the list is the model's.
unfoldable pub get_targets_with_states :
    ℕ → Bool → NodeTypeServer → ℕ → List Node → List BuddyGroup → List Target → Result (List State)
unfolding row_state nodes_of groups_with
get_targets_with_states now pre_shutdown ty timeout nodes groups [] = ok []
get_targets_with_states now pre_shutdown ty timeout nodes groups (t ∷ ts) =
    let rest = get_targets_with_states now pre_shutdown ty timeout nodes groups ts in
    if sql_variant t.node_type == sql_variant ty && ltb 0 (nodes_of t nodes)
    then (do
      state ← row_state now pre_shutdown timeout groups t
      states ← rest
      ok (
          replicate
            (nodes_of t nodes * (joined (primary_in t groups) * joined (secondary_in t groups)))
            state
          ++ states))
    else rest
