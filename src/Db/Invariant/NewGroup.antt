-- ===== src/Db/Invariant/NewGroup.antt =====
-- `buddy_group::insert` (mgmtd/src/db/buddy_group.rs) keeps the invariant.
use beegfs_rust.Prelude.{
  ℕ, ltb, ◌==◌, ◌&&◌, ◌||◌, not, if◌then◌else◌, true, false, Option, none, some, List, [], ◌∷◌,
  ◌++◌, All, ◌≡◌, subst, sym, refl, ◌∙◌, arith,
}
use beegfs_rust.Result.{
  Result, ok, both_ok, ◌>>=◌, ◌>>◌, ensure, in_group, other_pool, owns_root, constraint,
}
use beegfs_rust.Types.{NodeTypeServer}
use beegfs_rust.Entities.{EntityType, codes, user_str, decimal}
use beegfs_rust.Entities
use beegfs_rust.Db.Tables.{BuddyGroup, has_group_id}
use beegfs_rust.Db.Target.{validate_ids}
use beegfs_rust.Db.Target.Ids.{validate_ids-Distinct}
use beegfs_rust.Db.Misc.{member}
use beegfs_rust.Db.Store.{Store, has_target, has_group, has_member, is_storage, count_groups}
use beegfs_rust.Db.Changes.{
  visible, insert_group, check_members, choose_group_id, storage_pool_of, root_is,
}
use beegfs_rust.Db.Invariant.{Inv, agree}
use beegfs_rust.Db.Invariant.Groups.{regrouped}
use beegfs_rust.Db.Invariant.NewRows.{
  agree_meta, agree_storage, apart_all, has_group-Unique, storage_pool_of_lem,
}

-- The checks, taken apart.
pub same_pools : NodeTypeServer → ℕ → ℕ → Store → Result (Unit {0})
same_pools ty p i s =
    if is_storage ty
    then (do
      p_pool ← storage_pool_of p s.targets
      s_pool ← storage_pool_of i s.targets
      ensure (p_pool == s_pool) other_pool)
    else ok tt

pub check_members_ok :
    (ty : NodeTypeServer) (p i : ℕ) (s : Store)
    → check_members ty p i s ≡ ok tt
    → (validate_ids s.targets (p ∷ i ∷ []) ty ≡ ok tt)
      × ((count_groups
              (λ h. visible s.targets h && (has_member ty p h || has_member ty i h))
              s.groups
            ≡ 0)
          × (same_pools ty p i s ≡ ok tt))
unfolding check_members same_pools
check_members_ok ty p i s e =
    let n : ℕ =
      count_groups (λ h. visible s.targets h && (has_member ty p h || has_member ty i h))
        s.groups in
    let last : Result (Unit {0}) =
      ensure (is_storage ty || not (root_is i s.root_inode)) owns_root in
    let (_, (a, b)) =
      both_ok (validate_ids s.targets (p ∷ i ∷ []) ty)
        (λ _. ensure (not (ltb 0 n)) in_group >>= λ _. same_pools ty p i s >>= λ _. last) tt e in
    let (_, (c, d)) =
      both_ok (ensure (not (ltb 0 n)) in_group) (λ _. same_pools ty p i s >>= λ _. last) tt b in
    let (_, (f, _)) = both_ok (same_pools ty p i s) (λ _. last) tt d in (a, (ground (arith, c), f))

-- The new group keeps the invariant, given what the statements of the INSERT have checked.
module _ (ty : NodeTypeServer) (p i : ℕ) (s : Store) (inv : Inv s)
    (members : check_members ty p i s ≡ ok tt) where
  two_ids : (p == i) ≡ false
  unfolding member
  two_ids =
      let valid =
        (validate_ids-Distinct s.targets (p ∷ i ∷ []) ty inv.unique_targets).0
          (check_members_ok ty p i s members).0 in
      ground (arith, valid.0.0)

  pub new_agree :
      (g : BuddyGroup)
      → g.node_type ≡ ty
      → g.p_target_id ≡ p
      → g.s_target_id ≡ i
      → (if is_storage ty then (do q ← storage_pool_of p s.targets; ok (some q)) else ok none)
        ≡ ok g.pool_id
      → All (λ t. agree g t ≡ true) s.targets
  unfolding same_pools
  new_agree g a b c e =
      let pools : same_pools ty p i s ≡ ok tt = (check_members_ok ty p i s members).1.1 in
      (elim ty as (λ x. ty ≡ x → All (λ t. agree g t ≡ true) s.targets) [
        | NodeTypeServer.meta ↦ λ m. agree_meta g s.targets (a ∙ m)
        | NodeTypeServer.storage ↦ λ m.
            let made : (storage_pool_of p s.targets >>= λ q. ok (some q)) ≡ ok g.pool_id =
              subst
                (λ x.
                  (if is_storage x
                    then (do q ← storage_pool_of p s.targets; ok (some q))
                    else ok none)
                  ≡ ok g.pool_id)
                m e in
            let (q, (found, is)) =
              both_ok (storage_pool_of p s.targets) (λ q. ok (some q)) g.pool_id made in
            let same : same_pools NodeTypeServer.storage p i s ≡ ok tt =
              subst (λ x. same_pools x p i s ≡ ok tt) m pools in
            let (q1, (found1, eq)) =
              both_ok (storage_pool_of p s.targets)
                (λ p_pool.
                  storage_pool_of i s.targets >>= λ s_pool. ensure (p_pool == s_pool) other_pool)
                tt same in
            let (q2, (found2, eq2)) =
              both_ok (storage_pool_of i s.targets) (λ s_pool. ensure (q1 == s_pool) other_pool) tt
                eq in
            let pool_is : g.pool_id ≡ some q = ground (arith, is) in
            let same_q : q2 ≡ q = ground (arith, found, found1, eq2) in
            agree_storage p i q g s.targets (a ∙ m) b c pool_is
              (storage_pool_of_lem p q s.targets inv.unique_targets found)
              (storage_pool_of_lem i q s.targets inv.unique_targets
                (subst (λ x. storage_pool_of i s.targets ≡ ok x) same_q found2))
      ])
        refl

  pub grouped-Inv :
      {s' : Store} (g : BuddyGroup)
      → g.node_type ≡ ty
      → g.p_target_id ≡ p
      → g.s_target_id ≡ i
      → (if is_storage ty then (do q ← storage_pool_of p s.targets; ok (some q)) else ok none)
        ≡ ok g.pool_id
      → has_group ty g.group_id s.groups ≡ false
      → (has_target ty p s.targets && has_target ty i s.targets) ≡ true
      → s'.targets ≡ s.targets
      → s'.groups ≡ g ∷ s.groups
      → Inv s'
  grouped-Inv g a b c e k v t r =
      regrouped inv t r
        (
          subst (λ x. All (λ h. has_group_id x g.group_id h ≡ false) s.groups) (sym a)
              (has_group-Unique ty g.group_id s.groups k),
          inv.unique_groups,
        )
        (
          rw (b, c) two_ids,
          (
            apart_all ty p i s.targets g s.groups a b c (check_members_ok ty p i s members).1.0
                inv.visible,
            inv.disjoint,
          ),
        )
        (rw (a, b, c) v, inv.visible) (new_agree g a b c e, inv.agree)

pub insert_group-Inv :
    (group_id : ℕ) (alias : Option (List ℕ)) (ty : NodeTypeServer) (p i : ℕ) (s : Store)
    {made : ℕ × ℕ} {s' : Store}
    → insert_group group_id alias ty p i s ≡ ok (made, s')
    → Inv s
    → Inv s'
unfolding insert_group
insert_group-Inv group_id alias ty p i s {made = made} {s' = s'} e inv =
    let pool_of : Result (Option ℕ) =
      if is_storage ty then (do q ← storage_pool_of p s.targets; ok (some q)) else ok none in
    let named : ℕ → Result (List ℕ) = λ id. elim alias [
      | some a ↦ ok a
      | none ↦ Entities.try_from (codes "buddy_group_" ++ user_str ty ++ codes "_" ++ decimal id)
    ] in
    let last : ℕ → ℕ → Entities.Entities → Option ℕ → Result ((ℕ × ℕ) × Store) =
      λ id uid entities pool. (do
        ensure (not (has_group ty id s.groups)) constraint
        ensure (has_target ty p s.targets && has_target ty i s.targets) constraint
        ok (
          (uid, id),
          record s {
            entities = entities;
            groups =
                record {
                  group_uid = uid;
                  node_type = ty;
                  group_id = id;
                  p_target_id = p;
                  s_target_id = i;
                  pool_id = pool;
                }
                ∷ s.groups;
          },
        )) in
    let entity : ℕ → List ℕ → Result (ℕ × Entities.Entities) =
      λ id a. Entities.insert EntityType.buddy_group a s.entities in
    let (id, (_, e1)) =
      both_ok (choose_group_id group_id ty s)
        (λ id. check_members ty p i s >>= λ _.
          named id >>= λ a. entity id a >>= λ r. pool_of >>= λ pool. last id r.0 r.1 pool)
        (made, s') e in
    let (u, (members, e2)) =
      both_ok (check_members ty p i s)
        (λ _. named id >>= λ a. entity id a >>= λ r. pool_of >>= λ pool. last id r.0 r.1 pool)
        (made, s') e1 in
    let (a, (_, e3)) =
      both_ok (named id) (λ a. entity id a >>= λ r. pool_of >>= λ pool. last id r.0 r.1 pool)
        (made, s') e2 in
    let (r, (_, e4)) =
      both_ok (entity id a) (λ r. pool_of >>= λ pool. last id r.0 r.1 pool) (made, s') e3 in
    let (pool, (is_pool, e5)) = both_ok pool_of (λ pool. last id r.0 r.1 pool) (made, s') e4 in
    grouped-Inv ty p i s inv members
      (record {
        group_uid = r.0;
        node_type = ty;
        group_id = id;
        p_target_id = p;
        s_target_id = i;
        pool_id = pool;
      })
      refl refl refl is_pool (ground (arith, e5)) (ground (arith, e5)) (ground (arith, e5))
      (ground (arith, e5))
