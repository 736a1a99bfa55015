-- ===== src/Db/Invariant/Swap.antt =====
-- The switchover (`check_and_swap_buddies`, mgmtd/src/db/buddy_group.rs) keeps the invariant.
use beegfs_rust.Prelude.{
  ℕ, ◌==◌, true, false, Bool-cases, inl, inr, List, [], ◌∷◌, All, map, ◌≡◌, refl, arith,
}
use beegfs_rust.Result.{ok}
use beegfs_rust.Types.{NodeTypeServer}
use beegfs_rust.Db.Tables.{Target, BuddyGroup, has_group_id}
use beegfs_rust.Db.BuddyGroup.{swap_group, check_and_swap_buddies, to_swap}
use beegfs_rust.Db.BuddyGroup.Switchover.{switched, check_and_swap_buddies_lem}
use beegfs_rust.Db.Store.{Store, has_member}
use beegfs_rust.Db.Changes.{visible}
use beegfs_rust.Db.Invariant.{Inv, agree, apart}
use beegfs_rust.Db.Invariant.Groups.{
  regrouped, KeepsMembers, Unique-groups, Disjoint-groups, visible-groups, All-map_groups,
}

module _ (now timeout : ℕ) (targets : List Target) where
  abbrev new_group : BuddyGroup → BuddyGroup
  new_group = switched now timeout targets

  two :
      (g : BuddyGroup)
      → (g.p_target_id == g.s_target_id) ≡ false
      → ((new_group g).p_target_id == (new_group g).s_target_id) ≡ false
  unfolding swap_group
  two g e = ground arith

  member_kept :
      (ty : NodeTypeServer) (i : ℕ) (g : BuddyGroup)
      → has_member ty i (new_group g) ≡ has_member ty i g
  unfolding swap_group
  member_kept ty i g = ground arith

  absent_kept :
      (g h : BuddyGroup)
      → has_group_id g.node_type g.group_id h ≡ false
      → has_group_id (new_group g).node_type (new_group g).group_id (new_group h) ≡ false
  unfolding swap_group
  absent_kept g h e = ground arith

  apart_kept : (g h : BuddyGroup) → apart g h ≡ true → apart (new_group g) (new_group h) ≡ true
  unfolding swap_group
  apart_kept g h e = elim (Bool-cases (to_swap now timeout targets g)) [
    | inl p ↦ rw p (
        rw (member_kept g.node_type g.p_target_id h, member_kept g.node_type g.s_target_id h)
          (ground (arith, e)))
    | inr p ↦
        rw p
          (rw (member_kept g.node_type g.p_target_id h, member_kept g.node_type g.s_target_id h) e)
  ]

  visible_kept :
      (ts : List Target) (g : BuddyGroup) → visible ts g ≡ true → visible ts (new_group g) ≡ true
  unfolding swap_group
  visible_kept ts g e = ground (arith, e)

  new_group-KeepsMembers : KeepsMembers new_group
  new_group-KeepsMembers = record {
    two = two;
    other = absent_kept;
    apart = apart_kept;
    visible = visible_kept;
  }

  agree_kept :
      (g : BuddyGroup) (ts : List Target)
      → All (λ t. agree g t ≡ true) ts
      → All (λ t. agree (new_group g) t ≡ true) ts
  unfolding swap_group
  agree_kept g [] h = tt
  agree_kept g (t ∷ ts) h = (ground (arith, h.0), agree_kept g ts h.1)

-- The switchover keeps the invariant.
pub check_and_swap_buddies-Inv :
    (now timeout : ℕ) (s : Store) {ks : List (ℕ × NodeTypeServer)} {gs : List BuddyGroup}
    → check_and_swap_buddies now timeout s.targets s.groups ≡ ok (ks, gs)
    → Inv s
    → Inv (record s { groups = gs })
check_and_swap_buddies-Inv now timeout s {gs = gs} e inv =
    let same : gs ≡ map (switched now timeout s.targets) s.groups =
      ground
        (arith, e, check_and_swap_buddies_lem now timeout s.targets s.groups inv.unique_groups) in
    let kept = new_group-KeepsMembers now timeout s.targets in
    let in_pool : BuddyGroup → Type 0 = λ g. All (λ t. agree g t ≡ true) s.targets in
    regrouped inv refl same (Unique-groups kept s.groups inv.unique_groups)
      (Disjoint-groups kept s.groups inv.disjoint)
      (visible-groups kept s.targets s.groups inv.visible)
      (All-map_groups in_pool in_pool (switched now timeout s.targets)
        (λ g. agree_kept now timeout s.targets g s.targets) s.groups inv.agree)
