-- ===== src/Db/Invariant.antt =====
-- What holds of the tables of targets and buddy groups between transactions: the keys and foreign keys
-- of mgmtd/src/db/schema/1.sql, and what only the code of mgmtd/src/db/buddy_group.rs and
-- mgmtd/src/grpc/assign_pool.rs ensures.
pub mod Targets
pub mod Updates
pub mod Groups
pub mod NewGroup
pub mod NewRows
pub mod Swap
pub mod Pools
pub mod PoolMoves
pub mod Contact
pub mod Steps
pub mod Once
use beegfs_rust.Prelude.{
  ℕ, ◌==◌, ◌&&◌, ◌||◌, not, if◌then◌else◌, Bool, true, false, Option, none, some, List, [], ◌∷◌,
  All, ◌≡◌,
}
use beegfs_rust.Types.{NodeTypeServer}
use beegfs_rust.Db.Tables.{Target, BuddyGroup, sql_variant, has_target_id, has_group_id}
use beegfs_rust.Db.Target.Ids.{UniqueTargets}
use beegfs_rust.Db.BuddyGroup.Switchover.{UniqueGroups}
use beegfs_rust.Db.Store.{Store, has_member, is_storage}
use beegfs_rust.Db.Changes.{visible}

-- Two different targets, none of which is in the other group.
abbrev pub apart : BuddyGroup → BuddyGroup → Bool
apart g h =
    not (has_member g.node_type g.p_target_id h) && not (has_member g.node_type g.s_target_id h)

-- No target is in two groups or twice in one.
abbrev pub Disjoint : List BuddyGroup → Type 0
Disjoint [] = Unit {0}
Disjoint (g ∷ gs) =
    ((g.p_target_id == g.s_target_id) ≡ false) × (All (λ h. apart g h ≡ true) gs × Disjoint gs)

abbrev pub same_pool : Option ℕ → Option ℕ → Bool
same_pool none none = true
same_pool (some p) (some q) = p == q
same_pool _ _ = false

-- A member of a storage group is in the pool of the group.
abbrev pub agree : BuddyGroup → Target → Bool
agree g t =
    not (is_storage g.node_type && has_member t.node_type t.target_id g)
    || same_pool t.pool_id g.pool_id

abbrev pub Agree : List Target → List BuddyGroup → Type 0
Agree ts gs = All (λ g. All (λ t. agree g t ≡ true) ts) gs

abbrev pub AllVisible : List Target → List BuddyGroup → Type 0
AllVisible ts gs = All (λ g. visible ts g ≡ true) gs

pub record Inv (s : Store) : Type 0 where
  pub unique_targets : UniqueTargets s.targets
  pub unique_groups : UniqueGroups s.groups
  pub disjoint : Disjoint s.groups
  pub visible : AllVisible s.targets s.groups
  pub agree : Agree s.targets s.groups
