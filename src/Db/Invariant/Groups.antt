-- ===== src/Db/Invariant/Groups.antt =====
-- Creating, deleting and swapping buddy groups (mgmtd/src/db/buddy_group.rs) keep the invariant.
use beegfs_rust.Prelude.{
  ℕ, ◌==◌, true, false, Bool-cases, inl, inr, List, [], ◌∷◌, All, map, ◌≡◌, subst, sym, arith,
}
use beegfs_rust.Result.{ok}
use beegfs_rust.Types.{NodeTypeServer}
use beegfs_rust.Db.Tables.{Target, BuddyGroup, has_group_id, check_affected_rows}
use beegfs_rust.Db.Target.Ids.{UniqueTargets}
use beegfs_rust.Db.BuddyGroup.Switchover.{UniqueGroups}
use beegfs_rust.Db.Store.{Store, without_group, delete_storage_group}
use beegfs_rust.Db.Changes.{visible}
use beegfs_rust.Db.Invariant.{Inv, agree, Agree, AllVisible, Disjoint, apart}

-- The invariant of other groups with the same targets.
pub regrouped :
    {s s' : Store} {gs : List BuddyGroup}
    → Inv s
    → s'.targets ≡ s.targets
    → s'.groups ≡ gs
    → UniqueGroups gs
    → Disjoint gs
    → AllVisible s.targets gs
    → Agree s.targets gs
    → Inv s'
regrouped {s = s} {s' = s'} {gs = gs} inv t g u d v a = record {
  unique_targets = subst UniqueTargets (sym t) inv.unique_targets;
  unique_groups = subst UniqueGroups (sym g) u;
  disjoint = subst Disjoint (sym g) d;
  visible = subst (AllVisible s'.targets) (sym g) (subst (λ x. AllVisible x gs) (sym t) v);
  agree = subst (Agree s'.targets) (sym g) (subst (λ x. Agree x gs) (sym t) a);
}

All-without_group :
    (P : BuddyGroup → Type 0) (ty : NodeTypeServer) (i : ℕ) (gs : List BuddyGroup)
    → All P gs
    → All P (without_group ty i gs)
unfolding without_group
All-without_group P ty i [] h = tt
All-without_group P ty i (g ∷ gs) h = elim (Bool-cases (has_group_id ty i g)) [
  | inl p ↦ rw p (All-without_group P ty i gs h.1)
  | inr p ↦ rw p (h.0, All-without_group P ty i gs h.1)
]

without_group-Unique :
    (ty : NodeTypeServer) (i : ℕ) (gs : List BuddyGroup)
    → UniqueGroups gs
    → UniqueGroups (without_group ty i gs)
unfolding without_group
without_group-Unique ty i [] h = tt
without_group-Unique ty i (g ∷ gs) h = elim (Bool-cases (has_group_id ty i g)) [
  | inl p ↦ rw p (without_group-Unique ty i gs h.1)
  | inr p ↦ rw p (
    All-without_group (λ x. has_group_id g.node_type g.group_id x ≡ false) ty i gs h.0,
    without_group-Unique ty i gs h.1,
  )
]

without_group-Disjoint :
    (ty : NodeTypeServer) (i : ℕ) (gs : List BuddyGroup)
    → Disjoint gs
    → Disjoint (without_group ty i gs)
unfolding without_group
without_group-Disjoint ty i [] h = tt
without_group-Disjoint ty i (g ∷ gs) h = elim (Bool-cases (has_group_id ty i g)) [
  | inl p ↦ rw p (without_group-Disjoint ty i gs h.1.1)
  | inr p ↦ rw p (
    h.0,
    (All-without_group (λ x. apart g x ≡ true) ty i gs h.1.0, without_group-Disjoint ty i gs h.1.1),
  )
]

pub delete_storage_group-Inv :
    (i : ℕ) (s : Store) {u : Unit {0}} {s' : Store}
    → delete_storage_group i s ≡ ok (u, s')
    → Inv s
    → Inv s'
unfolding delete_storage_group check_affected_rows
delete_storage_group-Inv i s {s' = s'} e inv =
    regrouped inv (ground (arith, e)) (ground (arith, e))
      (without_group-Unique NodeTypeServer.storage i s.groups inv.unique_groups)
      (without_group-Disjoint NodeTypeServer.storage i s.groups inv.disjoint)
      (All-without_group (λ g. visible s.targets g ≡ true) NodeTypeServer.storage i s.groups
        inv.visible)
      (All-without_group (λ g. All (λ t. agree g t ≡ true) s.targets) NodeTypeServer.storage i
        s.groups inv.agree)

-- An update of group rows that keeps their key and their two targets, in whichever order.
pub record KeepsMembers (f : BuddyGroup → BuddyGroup) : Type 0 where
  pub two :
      (g : BuddyGroup)
      → (g.p_target_id == g.s_target_id) ≡ false
      → ((f g).p_target_id == (f g).s_target_id) ≡ false
  pub other :
      (g h : BuddyGroup)
      → has_group_id g.node_type g.group_id h ≡ false
      → has_group_id (f g).node_type (f g).group_id (f h) ≡ false
  pub apart : (g h : BuddyGroup) → apart g h ≡ true → apart (f g) (f h) ≡ true
  pub visible : (ts : List Target) (g : BuddyGroup) → visible ts g ≡ true → visible ts (f g) ≡ true

pub All-map_groups :
    (P Q : BuddyGroup → Type 0) (f : BuddyGroup → BuddyGroup)
    → ((g : BuddyGroup) → P g → Q (f g))
    → (gs : List BuddyGroup) → All P gs
    → All Q (map f gs)
All-map_groups P Q f n [] h = tt
All-map_groups P Q f n (g ∷ gs) h = (n g h.0, All-map_groups P Q f n gs h.1)

module _ {f : BuddyGroup → BuddyGroup} (k : KeepsMembers f) where
  pub Unique-groups : (gs : List BuddyGroup) → UniqueGroups gs → UniqueGroups (map f gs)
  Unique-groups [] u = tt
  Unique-groups (g ∷ gs) u = (
    All-map_groups (λ h. has_group_id g.node_type g.group_id h ≡ false)
        (λ h. has_group_id (f g).node_type (f g).group_id h ≡ false) f (k.other g) gs u.0,
    Unique-groups gs u.1,
  )

  pub Disjoint-groups : (gs : List BuddyGroup) → Disjoint gs → Disjoint (map f gs)
  Disjoint-groups [] d = tt
  Disjoint-groups (g ∷ gs) d = (
    k.two g d.0,
    (
      All-map_groups (λ h. apart g h ≡ true) (λ h. apart (f g) h ≡ true) f (k.apart g) gs d.1.0,
      Disjoint-groups gs d.1.1,
    ),
  )

  pub visible-groups :
      (ts : List Target) (gs : List BuddyGroup) → AllVisible ts gs → AllVisible ts (map f gs)
  visible-groups ts gs v =
      All-map_groups (λ g. visible ts g ≡ true) (λ g. visible ts g ≡ true) f (k.visible ts) gs v
