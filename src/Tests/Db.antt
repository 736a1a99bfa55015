-- ===== src/Tests/Db.antt =====
-- Concrete runs on tables (mgmtd/src/db) with two storage targets in a buddy group.
use beegfs_rust.Prelude.{
  ℕ, suc, ◌+◌, ◌≡◌, ◌≤◌, ◌⊎◌, ◌↔◌, refl, not, ◌&&◌, true, false, some, none, List, [], ◌∷◌, All,
  map, arith,
}
use beegfs_rust.Result.{ok, err, no_free_id}
use beegfs_rust.Types.{NodeType, NodeTypeServer, TargetConsistencyState, TargetReachabilityState}
use beegfs_rust.Db.Tables.{
  no_capacities, Node, Target, BuddyGroup, find_target, check_affected_rows,
}
use beegfs_rust.Db.BuddyGroup.{
  swap_condition, to_swap, affected_groups, swap_group, update_group, swap_groups,
  check_and_swap_buddies,
}
use beegfs_rust.Db.BuddyGroup.Switchover.{UniqueGroups, no_swap_back}
use beegfs_rust.Db.BuddyGroup.Conditions.{Switchover, check_and_swap_buddies-Switchover}
use beegfs_rust.Db.Misc.{member, min_successor, find_new_id}
use beegfs_rust.Db.Misc.NewId.{Free, find_new_id-outcome, find_new_id_least}
use beegfs_rust.Db.Target.{
  selected, count, validate_ids, update_consistency_states, update_last_contact_times,
  update_last_update, update_last_contact,
}
use beegfs_rust.Db.Target.Ids.{Distinct, matches, validate_ids-Distinct}
use beegfs_rust.Db.Target.Consistency.{changed, update_consistency_states-changed}
use beegfs_rust.Db.States.{
  State, reachability, row_state, groups_with, nodes_of, get_targets_with_states,
}
use beegfs_rust.Db.States.Contact.{
  is_online, is_offline, is_primary_id, primary_not_offline, contacted_online,
  reachabilities_changed, row_online,
}

abbrev pub target_with : ℕ → ℕ → Target
target_with id last_update = record {
  target_uid = 100 + id;
  node_type = NodeTypeServer.storage;
  target_id = id;
  node_id = some 1;
  pool_id = some 1;
  consistency = TargetConsistencyState.good;
  last_update = last_update;
  reg_token = none;
  capacities = no_capacities;
}

-- At the time 1000, the primary target 1 was last seen 600 seconds ago, the secondary one 10.
abbrev pub targets : List Target
targets = target_with 1 400 ∷ target_with 2 990 ∷ []

abbrev pub groups : List BuddyGroup
groups =
    record {
      group_uid = 301;
      node_type = NodeTypeServer.storage;
      group_id = 7;
      p_target_id = 1;
      s_target_id = 2;
      pool_id = some 1;
    }
    ∷ []

abbrev pub nodes : List Node
nodes = record { node_uid = 11; node_type = NodeType.storage; node_id = 1; last_contact = 0 } ∷ []

unique_groups : UniqueGroups groups
unique_groups = (tt, tt)

swapped_groups :
    check_and_swap_buddies 1000 180 targets groups
    ≡ ok ((7, NodeTypeServer.storage) ∷ [], map swap_group groups)
unfolding check_and_swap_buddies affected_groups swap_groups to_swap swap_condition find_target
    update_group swap_group check_affected_rows
swapped_groups = refl

check_and_swap_buddies-Switchover_example :
    (ks : List (ℕ × NodeTypeServer)) × ((gs : List BuddyGroup) × ((check_and_swap_buddies 1000 180
            targets groups
          ≡ ok (ks, gs))
        × Switchover 1000 180 targets groups ks gs))
check_and_swap_buddies-Switchover_example =
    check_and_swap_buddies-Switchover 1000 180 targets groups unique_groups

no_swap_back_example :
    check_and_swap_buddies 1000 180 targets (map swap_group groups) ≡ ok ([], map swap_group groups)
no_swap_back_example = no_swap_back 1000 180 targets groups unique_groups swapped_groups

find_new_id-outcome_example :
    ((n : ℕ) × ((find_new_id (1 ∷ 2 ∷ []) 1 2 ≡ ok n) × Free (1 ∷ 2 ∷ []) 1 2 n))
    ⊎ ((find_new_id (1 ∷ 2 ∷ []) 1 2 ≡ err no_free_id)
        × ((k : ℕ) → 1 + k ≤ 2 → member (1 + k) (1 ∷ 2 ∷ []) ≡ true))
find_new_id-outcome_example = find_new_id-outcome (1 ∷ 2 ∷ []) 1 2 (omega arith)

four_Free : Free (3 ∷ []) 1 100 4
unfolding member
four_Free = record { low = omega arith; high = omega arith; unused = refl }

three_used : member 3 (3 ∷ []) ≡ true
unfolding member
three_used = refl

find_new_id_least_example :
    (j : ℕ) × ((find_new_id (3 ∷ []) 1 100 ≡ ok (suc j))
      × ((member j (3 ∷ []) ≡ true) × (Free (3 ∷ []) 1 100 (suc j) × (suc j ≤ 4))))
find_new_id_least_example = find_new_id_least (3 ∷ []) 1 100 3 three_used four_Free

-- The id 4, although 1 and 2 are not used.
not_the_smallest : find_new_id (3 ∷ []) 1 100 ≡ ok 4
unfolding find_new_id min_successor member
not_the_smallest = refl

validate_ids-Distinct_example :
    (validate_ids targets (2 ∷ 1 ∷ []) NodeTypeServer.storage ≡ ok tt)
    ↔ (Distinct (2 ∷ 1 ∷ []) × All (λ i. matches NodeTypeServer.storage i targets ≡ 1) (2 ∷ 1 ∷ []))
validate_ids-Distinct_example =
    validate_ids-Distinct targets (2 ∷ 1 ∷ []) NodeTypeServer.storage ((refl, tt), (tt, tt))

abbrev to_bad : List (ℕ × TargetConsistencyState)
to_bad = (2, TargetConsistencyState.bad) ∷ []

update_consistency_states-changed_example :
    (update_consistency_states NodeTypeServer.storage to_bad targets).1
    ≡ map (changed NodeTypeServer.storage to_bad) targets
update_consistency_states-changed_example =
    update_consistency_states-changed NodeTypeServer.storage to_bad targets

-- Target 1 is the primary one: it is not reported as offline.
abbrev reported : List State
reported =
    (1, (TargetConsistencyState.good, TargetReachabilityState.probably_offline))
    ∷ (2, (TargetConsistencyState.good, TargetReachabilityState.online))
    ∷ []

targets_reported :
    get_targets_with_states 1000 false NodeTypeServer.storage 180 nodes groups targets ≡ ok reported
unfolding get_targets_with_states row_state reachability groups_with nodes_of
targets_reported = refl

primary_not_offline_example :
    All
      (λ s. (is_primary_id NodeTypeServer.storage s.0 groups && is_offline s.1.1) ≡ false)
      reported
primary_not_offline_example =
    primary_not_offline 1000 false NodeTypeServer.storage 180 nodes groups targets targets_reported

abbrev contacted : ℕ × (List Node × List Target)
contacted = (
  1,
  (
    record { node_uid = 11; node_type = NodeType.storage; node_id = 1; last_contact = 1000 } ∷ [],
    target_with 1 1000 ∷ target_with 2 990 ∷ [],
  ),
)

contact :
    update_last_contact_times 1000 (1 ∷ []) NodeTypeServer.storage 180 nodes targets ≡ contacted
unfolding update_last_contact_times update_last_update update_last_contact count member
contact = refl

abbrev online : List State
online =
    (1, (TargetConsistencyState.good, TargetReachabilityState.online))
    ∷ (2, (TargetConsistencyState.good, TargetReachabilityState.online))
    ∷ []

contacted_reported :
    get_targets_with_states 1000 false NodeTypeServer.storage 180 contacted.1.0 groups contacted.1.1
    ≡ ok online
unfolding get_targets_with_states row_state reachability groups_with nodes_of
contacted_reported = refl

contacted_online_example : All (λ s. (member s.0 (1 ∷ []) && not (is_online s.1.1)) ≡ false) online
contacted_online_example =
    contacted_online 1000 NodeTypeServer.storage 180 (1 ∷ []) groups nodes targets contact
      contacted_reported

reachabilities_changed_example :
    (update_last_contact_times 1000 (1 ∷ []) NodeTypeServer.storage 180 nodes targets).0
    ≡ count
        (λ t.
          selected NodeTypeServer.storage (1 ∷ []) t
          && not (row_online 1000 NodeTypeServer.storage 180 (1 ∷ []) groups t))
        targets
reachabilities_changed_example =
    reachabilities_changed 1000 NodeTypeServer.storage 180 (1 ∷ []) groups nodes targets
      (refl, (refl, tt))
