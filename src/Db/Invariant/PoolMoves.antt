-- ===== src/Db/Invariant/PoolMoves.antt =====
-- A group that is moved to another pool (mgmtd/src/grpc/assign_pool.rs): its rows and those of its targets.
use beegfs_rust.Prelude.{
  ℕ, ltb, ◌==◌, ◌&&◌, Bool, true, Bool-cases, inl, inr, List, [], ◌∷◌, All, map, ◌≡◌, subst, sym,
  refl, arith,
}
use beegfs_rust.Db.Tables.{Target, BuddyGroup}
use beegfs_rust.Db.Target.Ids.{UniqueTargets}
use beegfs_rust.Db.BuddyGroup.Switchover.{UniqueGroups}
use beegfs_rust.Db.Store.{Store, has_member, count_groups}
use beegfs_rust.Db.Changes.{visible, set_target_pool, set_group_pool, member_of_uid}
use beegfs_rust.Db.Invariant.{Inv, agree, Agree, AllVisible, Disjoint, apart}
use beegfs_rust.Db.Invariant.Groups.{
  KeepsMembers, Unique-groups, Disjoint-groups, visible-groups, All-map_groups,
}
use beegfs_rust.Db.Invariant.Updates.{KeepsKey, Unique-map, visible-map, All-map}

pub pool_set-KeepsKey : (test : Target → Bool) (pool : ℕ) → KeepsKey (set_target_pool test pool)
pool_set-KeepsKey test pool = record {
  node_type = λ t. ground arith;
  target_id = λ t. ground arith;
}

abbrev pub pool_of_group : ℕ → ℕ → BuddyGroup → BuddyGroup
pool_of_group pool uid = set_group_pool (λ g. g.group_uid == uid) pool

pub pool_of_group-KeepsMembers : (pool uid : ℕ) → KeepsMembers (pool_of_group pool uid)
pool_of_group-KeepsMembers pool uid = record {
  two = λ g e. ground (arith, e);
  other = λ g h e. ground (arith, e);
  apart = λ g h e. ground (arith, e);
  visible = λ ts g e. ground (arith, e);
}

-- The groups with the uid that a target is a member of.
abbrev pub holds_target : ℕ → List Target → Target → BuddyGroup → Bool
holds_target uid ts t g =
    g.group_uid == uid && (visible ts g && has_member t.node_type t.target_id g)

-- A member of a group is in no other one, so it is moved exactly if that group is.
abbrev pub Moves : ℕ → List Target → List BuddyGroup → BuddyGroup → Type 0
Moves uid ts gs g =
    (t : Target)
    → has_member t.node_type t.target_id g ≡ true
    → ltb 0 (count_groups (holds_target uid ts t) gs) ≡ (g.group_uid == uid)

pub none_apart :
    (uid : ℕ) (ts : List Target) (g : BuddyGroup) (gs : List BuddyGroup) (t : Target)
    → All (λ h. apart g h ≡ true) gs
    → has_member t.node_type t.target_id g ≡ true
    → count_groups (holds_target uid ts t) gs ≡ 0
unfolding count_groups
none_apart uid ts g [] t a m = refl
none_apart uid ts g (h ∷ gs) t a m = ground (arith, a.0, m, none_apart uid ts g gs t a.1 m)

pub Moves-more :
    (uid : ℕ) (ts : List Target) (all : List BuddyGroup) (g : BuddyGroup) (gs : List BuddyGroup)
    → All (λ h. apart g h ≡ true) gs
    → All (Moves uid ts all) gs
    → All (Moves uid ts (g ∷ all)) gs
unfolding count_groups
Moves-more uid ts all g [] a h = tt
Moves-more uid ts all g (x ∷ gs) a h =
    (λ t m. ground (arith, a.0, m, h.0 t m), Moves-more uid ts all g gs a.1 h.1)

pub all_move :
    (uid : ℕ) (ts : List Target) (gs : List BuddyGroup)
    → AllVisible ts gs
    → Disjoint gs
    → All (Moves uid ts gs) gs
unfolding count_groups
all_move uid ts [] v d = tt
all_move uid ts (g ∷ gs) v d = (
  λ t m. ground (arith, v.0, m, none_apart uid ts g gs t d.1.0 m),
  Moves-more uid ts gs g gs d.1.0 (all_move uid ts gs v.1 d.1.1),
)

module _ (pool uid : ℕ) (s : Store) where
  abbrev pub moved_with : Target → Target
  moved_with = set_target_pool (member_of_uid uid s) pool

  pub agree_moved :
      (g : BuddyGroup) (ts : List Target)
      → Moves uid s.targets s.groups g
      → All (λ t. agree g t ≡ true) ts
      → All (λ t. agree (pool_of_group pool uid g) (moved_with t) ≡ true) ts
  agree_moved g [] m h = tt
  agree_moved g (t ∷ ts) m h = (
    elim (Bool-cases (has_member t.node_type t.target_id g)) [
      | inl p ↦ elim (Bool-cases (g.group_uid == uid)) [
        | inl q ↦ rw (m t p, q) (ground (arith, p, q))
        | inr q ↦ rw (m t p, q) h.0
      ]
      | inr p ↦ ground (arith, p)
    ],
    agree_moved g ts m h.1,
  )

  -- The rows after the two UPDATEs.
  pub moved-Inv :
      {s' : Store}
      → s'.targets ≡ map moved_with s.targets
      → s'.groups ≡ map (pool_of_group pool uid) s.groups
      → Inv s
      → Inv s'
  moved-Inv {s' = s'} t g inv =
      let keys = pool_set-KeepsKey (member_of_uid uid s) pool in
      let members = pool_of_group-KeepsMembers pool uid in
      let ts = map moved_with s.targets in
      let gs = map (pool_of_group pool uid) s.groups in
      let a : Agree ts gs =
        All-map_groups (λ g. Moves uid s.targets s.groups g × All (λ t. agree g t ≡ true) s.targets)
          (λ g. All (λ t. agree g t ≡ true) ts) (pool_of_group pool uid)
          (λ g h.
            All-map keys (λ t. agree (pool_of_group pool uid g) t ≡ true) s.targets
              (agree_moved g s.targets h.0 h.1))
          s.groups
          (zip s.groups (all_move uid s.targets s.groups inv.visible inv.disjoint) inv.agree) in
      let v : AllVisible ts gs =
        visible-groups members ts s.groups (visible-map keys s.targets s.groups inv.visible) in
      record {
        unique_targets = subst UniqueTargets (sym t) (Unique-map keys s.targets inv.unique_targets);
        unique_groups =
            subst UniqueGroups (sym g) (Unique-groups members s.groups inv.unique_groups);
        disjoint = subst Disjoint (sym g) (Disjoint-groups members s.groups inv.disjoint);
        visible = subst (λ x. AllVisible x s'.groups) (sym t) (subst (AllVisible ts) (sym g) v);
        agree = subst (λ x. Agree x s'.groups) (sym t) (subst (Agree ts) (sym g) a);
      }
    where
      zip :
          (gs : List BuddyGroup)
          → All (Moves uid s.targets s.groups) gs
          → Agree s.targets gs
          → All (λ g. Moves uid s.targets s.groups g × All (λ t. agree g t ≡ true) s.targets) gs
      zip [] h k = tt
      zip (g ∷ gs) h k = ((h.0, k.0), zip gs h.1 k.1)
