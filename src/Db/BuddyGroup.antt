-- ===== src/Db/BuddyGroup.antt =====
-- `check_and_swap_buddies` (mgmtd/src/db/buddy_group.rs): the switchover.
pub mod Switchover
pub mod Conditions
use beegfs_rust.Prelude.{
  ℕ, zero, suc, ◌+◌, ◌/◌, leb, ltb, ◌==◌, ◌&&◌, if◌then◌else◌, Bool, true, false, Option, none,
  some, List, [], ◌∷◌,
}
use beegfs_rust.Result.{Result, ok, ◌>>=◌, ◌>>◌}
use beegfs_rust.Types.{NodeTypeServer, TargetConsistencyState}
use beegfs_rust.Db.Tables.{Target, BuddyGroup, find_target, has_group_id, check_affected_rows}

abbrev is_good : TargetConsistencyState → Bool
is_good TargetConsistencyState.good = true
is_good _ = false

-- The WHERE clause. SQL subtracts signed integers: `now - last >= t` is `last + t <= now`.
unfoldable pub swap_condition : ℕ → ℕ → Target → Target → Bool
swap_condition now timeout p_t s_t =
    leb (p_t.last_update + timeout) now
    && (is_good s_t.consistency && ltb now (s_t.last_update + timeout / 2))

-- The joins are inner joins: a group without its targets is not selected.
unfoldable pub to_swap : ℕ → ℕ → List Target → BuddyGroup → Bool
unfolding swap_condition find_target
to_swap now timeout targets g = elim (find_target g.node_type g.p_target_id targets) [
  | none ↦ false
  | some p_t ↦ elim (find_target g.node_type g.s_target_id targets) [
    | none ↦ false
    | some s_t ↦ swap_condition now timeout p_t s_t
  ]
]

unfoldable pub affected_groups : ℕ → ℕ → List Target → List BuddyGroup → List (ℕ × NodeTypeServer)
unfolding to_swap
affected_groups now timeout targets [] = []
affected_groups now timeout targets (g ∷ groups) =
    let rest = affected_groups now timeout targets groups in
    if to_swap now timeout targets g then (g.group_id, g.node_type) ∷ rest else rest

-- The UPDATE: it counts the rows that it has changed.
unfoldable pub swap_group : BuddyGroup → BuddyGroup
swap_group g = record g { p_target_id = g.s_target_id; s_target_id = g.p_target_id }

unfoldable pub update_group : ℕ × NodeTypeServer → List BuddyGroup → ℕ × List BuddyGroup
unfolding swap_group
update_group k [] = (0, [])
update_group k (g ∷ groups) =
    let (affected, rest) = update_group k groups in
    if has_group_id k.1 k.0 g then (suc affected, swap_group g ∷ rest) else (affected, g ∷ rest)

unfoldable pub swap_groups : List (ℕ × NodeTypeServer) → List BuddyGroup → Result (List BuddyGroup)
unfolding update_group check_affected_rows
swap_groups [] groups = ok groups
swap_groups (k ∷ ks) groups = do
  let (affected, groups') = update_group k groups
  check_affected_rows affected
  swap_groups ks groups'

unfoldable pub check_and_swap_buddies :
    ℕ → ℕ → List Target → List BuddyGroup → Result (List (ℕ × NodeTypeServer) × List BuddyGroup)
unfolding affected_groups swap_groups
check_and_swap_buddies now timeout targets groups = do
  let affected = affected_groups now timeout targets groups
  groups' ← swap_groups affected groups
  ok (affected, groups')
