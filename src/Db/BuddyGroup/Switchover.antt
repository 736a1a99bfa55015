-- ===== src/Db/BuddyGroup/Switchover.antt =====
-- `check_and_swap_buddies` (mgmtd/src/db/buddy_group.rs) against the conditions of its documentation.
use beegfs_rust.Prelude.{
  ℕ, ◌≡◌, refl, if◌then◌else◌, false, Bool-cases, Option-cases, inl, inr, List, [], ◌∷◌, map, All,
  arith,
}
use beegfs_rust.Result.{ok, ◌>>=◌}
use beegfs_rust.Types.{NodeTypeServer}
use beegfs_rust.Db.Tables.{Target, BuddyGroup, has_group_id, find_target, check_affected_rows}
use beegfs_rust.Db.BuddyGroup.{
  to_swap, swap_condition, affected_groups, swap_group, update_group, swap_groups,
  check_and_swap_buddies,
}

-- `UNIQUE(node_type, group_id)`
abbrev pub UniqueGroups : List BuddyGroup → Type 0
UniqueGroups [] = Unit {0}
UniqueGroups (g ∷ gs) =
    All (λ h. has_group_id g.node_type g.group_id h ≡ false) gs × UniqueGroups gs

has_group_id_sym :
    (g h : BuddyGroup)
    → has_group_id g.node_type g.group_id h ≡ false
    → has_group_id h.node_type h.group_id g ≡ false
has_group_id_sym g h e = ground arith

absent :
    (ty : NodeTypeServer) (i : ℕ) (gs : List BuddyGroup)
    → All (λ h. has_group_id ty i h ≡ false) gs
    → update_group (i, ty) gs ≡ (0, gs)
unfolding update_group
absent ty i [] h = refl
absent ty i (g ∷ gs) h = ground (arith, h.0, absent ty i gs h.1)

skip_head :
    (ks : List (ℕ × NodeTypeServer)) (g : BuddyGroup) (gs : List BuddyGroup)
    → All (λ k. has_group_id k.1 k.0 g ≡ false) ks
    → swap_groups ks (g ∷ gs) ≡ (swap_groups ks gs >>= λ gs'. ok (g ∷ gs'))
unfolding swap_groups update_group check_affected_rows
skip_head [] g gs h = refl
skip_head (k ∷ ks) g gs h = ground (arith, h.0, skip_head ks g (update_group k gs).1 h.1)

module _ (now timeout : ℕ) (targets : List Target) where
  other_keys :
      (g : BuddyGroup) (gs : List BuddyGroup)
      → All (λ h. has_group_id g.node_type g.group_id h ≡ false) gs
      → All (λ k. has_group_id k.1 k.0 g ≡ false) (affected_groups now timeout targets gs)
  unfolding affected_groups
  other_keys g [] h = tt
  other_keys g (x ∷ gs) h = elim (Bool-cases (to_swap now timeout targets x)) [
    | inl e ↦ rw e (has_group_id_sym g x h.0, other_keys g gs h.1)
    | inr e ↦ rw e (other_keys g gs h.1)
  ]

  -- Every group is swapped or kept by itself.
  abbrev pub switched : BuddyGroup → BuddyGroup
  switched g = if to_swap now timeout targets g then swap_group g else g

  swap_groups-affected :
      (gs : List BuddyGroup)
      → UniqueGroups gs
      → swap_groups (affected_groups now timeout targets gs) gs ≡ ok (map switched gs)
  unfolding affected_groups swap_groups update_group swap_group check_affected_rows
  swap_groups-affected [] u = refl
  swap_groups-affected (g ∷ gs) u = ground (
    arith,
    absent g.node_type g.group_id gs u.0,
    other_keys g gs u.0,
    swap_groups-affected gs u.1,
    skip_head (affected_groups now timeout targets gs) g gs (other_keys g gs u.0),
    skip_head (affected_groups now timeout targets gs) (swap_group g) gs (other_keys g gs u.0),
  )

  -- The keys of the groups that meet the conditions.
  abbrev pub swapped_keys : List BuddyGroup → List (ℕ × NodeTypeServer)
  swapped_keys = affected_groups now timeout targets

  -- With unique ids, the switchover succeeds, and of every group by itself it swaps primary and
  -- secondary or keeps them: no update hits another group than the one that was selected.
  pub check_and_swap_buddies_lem :
      (gs : List BuddyGroup)
      → UniqueGroups gs
      → check_and_swap_buddies now timeout targets gs
        ≡ ok (affected_groups now timeout targets gs, map switched gs)
  unfolding check_and_swap_buddies
  check_and_swap_buddies_lem gs u = ground (arith, swap_groups-affected gs u)

  -- A group that was just swapped does not meet the conditions.
  to_swap-switched : (g : BuddyGroup) → to_swap now timeout targets (switched g) ≡ false
  unfolding to_swap swap_condition swap_group
  to_swap-switched g = elim (Option-cases (find_target g.node_type g.p_target_id targets)) [
    | inl p ↦ ground (arith, p)
    | inr (p_t, p) ↦ elim (Option-cases (find_target g.node_type g.s_target_id targets)) [
      | inl q ↦ ground (arith, p, q)
      | inr (s_t, q) ↦ ground (arith, p, q)
    ]
  ]

  settled : (gs : List BuddyGroup) → affected_groups now timeout targets (map switched gs) ≡ []
  unfolding affected_groups
  settled [] = refl
  settled (g ∷ gs) = ground (arith, to_swap-switched g, settled gs)

-- A switchover does not go back: with unique ids, a second check at the same time finds nothing to swap
-- and leaves the groups as the first one has left them.
pub no_swap_back :
    (now timeout : ℕ) (targets : List Target) (gs : List BuddyGroup)
    {ks : List (ℕ × NodeTypeServer)} {gs' : List BuddyGroup}
    → UniqueGroups gs
    → check_and_swap_buddies now timeout targets gs ≡ ok (ks, gs')
    → check_and_swap_buddies now timeout targets gs' ≡ ok ([], gs')
unfolding check_and_swap_buddies swap_groups
no_swap_back now timeout targets gs {gs' = gs'} u e =
    let same : gs' ≡ map (switched now timeout targets) gs =
      ground (arith, check_and_swap_buddies_lem now timeout targets gs u) in
    rw same (rw (settled now timeout targets gs) refl)
