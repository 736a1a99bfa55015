-- ===== src/Db/Invariant/NewRows.antt =====
-- What the checks of `buddy_group::insert` (mgmtd/src/db/buddy_group.rs) say of the rows.
use beegfs_rust.Prelude.{
  ℕ, ◌&&◌, ◌||◌, not, true, false, Bool-cases, inl, inr, some, List, [], ◌∷◌, All, ◌≡◌, arith,
}
use beegfs_rust.Result.{ok}
use beegfs_rust.Types.{NodeTypeServer}
use beegfs_rust.Db.Tables.{Target, BuddyGroup, has_target_id, has_group_id, find_target}
use beegfs_rust.Db.Target.Ids.{UniqueTargets}
use beegfs_rust.Db.Store.{has_group, has_member, count_groups}
use beegfs_rust.Db.Changes.{visible, storage_pool_of}
use beegfs_rust.Db.Invariant.{agree, same_pool, AllVisible, apart}

pub has_group-Unique :
    (ty : NodeTypeServer) (i : ℕ) (gs : List BuddyGroup)
    → has_group ty i gs ≡ false
    → All (λ h. has_group_id ty i h ≡ false) gs
unfolding has_group
has_group-Unique ty i [] h = tt
has_group-Unique ty i (g ∷ gs) h = (ground arith, has_group-Unique ty i gs (ground arith))

-- No visible group has one of the targets, and every group is visible.
pub apart_all :
    (ty : NodeTypeServer) (p s : ℕ) (ts : List Target) (g : BuddyGroup) (gs : List BuddyGroup)
    → g.node_type ≡ ty
    → g.p_target_id ≡ p
    → g.s_target_id ≡ s
    → count_groups (λ h. visible ts h && (has_member ty p h || has_member ty s h)) gs ≡ 0
    → AllVisible ts gs
    → All (λ h. apart g h ≡ true) gs
unfolding count_groups
apart_all ty p s ts g [] a b c e v = tt
apart_all ty p s ts g (h ∷ gs) a b c e v = (
  rw (a, b, c) (ground (arith, v.0, e)),
  apart_all ty p s ts g gs a b c (ground (arith, v.0, e)) v.1,
)

-- The only target with the id has the pool that was found.
pub others :
    (i q : ℕ) (t : Target) (ts : List Target)
    → has_target_id NodeTypeServer.storage i t ≡ true
    → All (λ u. has_target_id t.node_type t.target_id u ≡ false) ts
    → All
        (λ u.
          (not (has_target_id NodeTypeServer.storage i u) || same_pool u.pool_id (some q)) ≡ true)
        ts
others i q t [] e h = tt
others i q t (u ∷ ts) e h = (ground (arith, h.0, e), others i q t ts e h.1)

pub storage_pool_of_lem :
    (i q : ℕ) (ts : List Target)
    → UniqueTargets ts
    → storage_pool_of i ts ≡ ok q
    → All
        (λ t.
          (not (has_target_id NodeTypeServer.storage i t) || same_pool t.pool_id (some q)) ≡ true)
        ts
unfolding storage_pool_of find_target
storage_pool_of_lem i q [] u e = tt
storage_pool_of_lem i q (t ∷ ts) u e =
    elim (Bool-cases (has_target_id NodeTypeServer.storage i t)) [
      | inl p ↦ (ground (arith, p, e), others i q t ts p u.0)
      | inr p ↦ (ground (arith, p), storage_pool_of_lem i q ts u.1 (ground (arith, p, e)))
    ]

pub agree_storage :
    (p s q : ℕ) (g : BuddyGroup) (ts : List Target)
    → g.node_type ≡ NodeTypeServer.storage
    → g.p_target_id ≡ p
    → g.s_target_id ≡ s
    → g.pool_id ≡ some q
    → All
        (λ t.
          (not (has_target_id NodeTypeServer.storage p t) || same_pool t.pool_id (some q)) ≡ true)
        ts
    → All
        (λ t.
          (not (has_target_id NodeTypeServer.storage s t) || same_pool t.pool_id (some q)) ≡ true)
        ts
    → All (λ t. agree g t ≡ true) ts
agree_storage p s q g [] a b c d h k = tt
agree_storage p s q g (t ∷ ts) a b c d h k =
    (rw (a, b, c, d) (ground (arith, h.0, k.0)), agree_storage p s q g ts a b c d h.1 k.1)

pub agree_meta :
    (g : BuddyGroup) (ts : List Target)
    → g.node_type ≡ NodeTypeServer.meta
    → All (λ t. agree g t ≡ true) ts
agree_meta g [] e = tt
agree_meta g (t ∷ ts) e = (rw e (ground arith), agree_meta g ts e)
