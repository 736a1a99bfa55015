-- ===== src/Db/BuddyGroup/Conditions.antt =====
-- `check_and_swap_buddies` (mgmtd/src/db/buddy_group.rs) against the conditions of a switchover.
use beegfs_rust.Prelude.{
  ℕ, ◌+◌, ◌/◌, ◌<◌, ◌≤◌, ◌≡◌, true, false, Bool-cases, Option-cases, inl, inr, some, List, [], ◌∷◌,
  map, arith,
}
use beegfs_rust.Result.{ok}
use beegfs_rust.Types.{NodeTypeServer, TargetConsistencyState}
use beegfs_rust.Db.Tables.{Target, BuddyGroup, find_target}
use beegfs_rust.Db.BuddyGroup.{
  swap_condition, to_swap, affected_groups, swap_group, check_and_swap_buddies,
}
use beegfs_rust.Db.BuddyGroup.Switchover.{UniqueGroups, switched, check_and_swap_buddies_lem}

module _ (now timeout : ℕ) (targets : List Target) where
  -- The primary target was last in contact at least the timeout ago, and the secondary one is good and
  -- was in contact within half of it.
  pub record MustSwitch (g : BuddyGroup) : Type 0 where
    pub primary : Target
    pub secondary : Target
    pub primary_found : find_target g.node_type g.p_target_id targets ≡ some primary
    pub secondary_found : find_target g.node_type g.s_target_id targets ≡ some secondary
    pub primary_silent : timeout + primary.last_update ≤ now
    pub secondary_good : secondary.consistency ≡ TargetConsistencyState.good
    pub secondary_recent : now < timeout / 2 + secondary.last_update

  -- Every group by itself: the keys of the ones that are switched, and the groups after it. The query has
  -- no ORDER BY: that the keys have the order of the list of groups is the model's.
  pub data Switchover : List BuddyGroup → List (ℕ × NodeTypeServer) → List BuddyGroup → Type 0 where
    none_left : Switchover [] [] []
    switch :
        {g : BuddyGroup} {gs gs' : List BuddyGroup} {ks : List (ℕ × NodeTypeServer)}
        → MustSwitch g
        → Switchover gs ks gs'
        → Switchover
            (g ∷ gs)
            ((g.group_id, g.node_type) ∷ ks)
            (record g { p_target_id = g.s_target_id; s_target_id = g.p_target_id } ∷ gs')
    keep :
        {g : BuddyGroup} {gs gs' : List BuddyGroup} {ks : List (ℕ × NodeTypeServer)}
        → ¬ MustSwitch g
        → Switchover gs ks gs'
        → Switchover (g ∷ gs) ks (g ∷ gs')

  must_switch : (g : BuddyGroup) → to_swap now timeout targets g ≡ true → MustSwitch g
  unfolding to_swap swap_condition
  must_switch g e = elim (Option-cases (find_target g.node_type g.p_target_id targets)) [
    | inl p ↦ absurd (ground (arith, p))
    | inr (p_t, p) ↦ elim (Option-cases (find_target g.node_type g.s_target_id targets)) [
      | inl q ↦ absurd (ground (arith, p, q))
      | inr (s_t, q) ↦ record {
        primary = p_t;
        secondary = s_t;
        primary_found = p;
        secondary_found = q;
        primary_silent = ground (arith, p, q);
        secondary_good = ground (arith, p, q);
        secondary_recent = ground (arith, p, q);
      }
    ]
  ]

  must_not : (g : BuddyGroup) → to_swap now timeout targets g ≡ false → ¬ MustSwitch g
  unfolding to_swap swap_condition
  must_not g e m = ground (
    arith, e, m.primary_found, m.secondary_found, m.primary_silent, m.secondary_good,
    m.secondary_recent,
  )

  switched_rows :
      (gs : List BuddyGroup)
      → Switchover gs
          (affected_groups now timeout targets gs)
          (map (switched now timeout targets) gs)
  unfolding affected_groups swap_group
  switched_rows [] = none_left
  switched_rows (g ∷ gs) = elim (Bool-cases (to_swap now timeout targets g)) [
    | inl p ↦ rw p (switch (must_switch g p) (switched_rows gs))
    | inr p ↦ rw p (keep (must_not g p) (switched_rows gs))
  ]

  -- With unique ids of groups, the switchover succeeds; it swaps primary and secondary of each group
  -- whose primary target was last in contact at least the timeout ago while the secondary one is good
  -- and was in contact within less than half of it, returns the keys of these groups, and keeps all
  -- others, also those of which a target is missing.
  pub check_and_swap_buddies-Switchover :
      (gs : List BuddyGroup)
      → UniqueGroups gs
      → (ks : List (ℕ × NodeTypeServer)) × ((gs' : List BuddyGroup) × ((check_and_swap_buddies now
                timeout targets gs
              ≡ ok (ks, gs'))
            × Switchover gs ks gs'))
  check_and_swap_buddies-Switchover gs u = (
    affected_groups now timeout targets gs,
    (
      map (switched now timeout targets) gs,
      (check_and_swap_buddies_lem now timeout targets gs u, switched_rows gs),
    ),
  )
