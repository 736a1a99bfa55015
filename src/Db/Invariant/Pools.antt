-- ===== src/Db/Invariant/Pools.antt =====
-- Moving targets and groups to another pool (`do_assign`, mgmtd/src/grpc/assign_pool.rs) keeps the
-- invariant.
use beegfs_rust.Prelude.{
  ℕ, ltb, ◌==◌, ◌&&◌, ◌||◌, not, Bool, true, false, Bool-cases, inl, inr, List, [], ◌∷◌, All, map,
  ◌≡◌, subst, arith,
}
use beegfs_rust.Result.{Result, ok, both_ok, ◌>>=◌, ensure, in_group, constraint}
use beegfs_rust.Db.Tables.{Target, BuddyGroup, sql_variant}
use beegfs_rust.Db.Target.{count}
use beegfs_rust.Db.Store.{Store, has_member, has_pool, is_storage, count_groups}
use beegfs_rust.Db.Changes.{
  visible, set_target_pool, all_storage, all_storage_groups, assign_target, assign_targets,
  member_of_uid, assign_group, assign_groups, do_assign,
}
use beegfs_rust.Db.Invariant.{Inv, agree, Agree, AllVisible}
use beegfs_rust.Db.Invariant.Updates.{updated-Inv}
use beegfs_rust.Db.Invariant.PoolMoves.{moved-Inv, pool_of_group, pool_set-KeepsKey}

-- A count of nothing is one in which no row counts.
count-none : (p : Target → Bool) (ts : List Target) → count p ts ≡ 0 → All (λ t. p t ≡ false) ts
unfolding count
count-none p [] e = tt
count-none p (t ∷ ts) e = (ground (arith, e), count-none p ts (ground (arith, e)))

count_groups-none :
    (p : BuddyGroup → Bool) (gs : List BuddyGroup)
    → count_groups p gs ≡ 0
    → All (λ g. p g ≡ false) gs
unfolding count_groups
count_groups-none p [] e = tt
count_groups-none p (g ∷ gs) e = (ground (arith, e), count_groups-none p gs (ground (arith, e)))

module _ (pool uid : ℕ) where
  abbrev in_use : List Target → BuddyGroup → Target → Bool
  in_use ts g t =
      has_member g.node_type t.target_id g
      && (sql_variant t.node_type == sql_variant g.node_type && t.target_uid == uid)

  abbrev moved : Target → Target
  moved = set_target_pool (λ t. t.target_uid == uid) pool

  -- The target that is moved is in no storage group.
  unmoved :
      (all ts : List Target) (g : BuddyGroup)
      → (is_storage g.node_type ≡ true → All (λ t. in_use all g t ≡ false) ts)
      → All (λ t. agree g t ≡ true) ts
      → All (λ t. agree g (moved t) ≡ true) ts
  unmoved all [] g c h = tt
  unmoved all (t ∷ ts) g c h = (
    elim (Bool-cases (is_storage g.node_type)) [
      | inl p ↦ rw p (ground (arith, p, (c p).0, h.0))
      | inr p ↦ rw p (ground (arith, p))
    ],
    unmoved all ts g (λ p. (c p).1) h.1,
  )

  free :
      (ts : List Target) (gs : List BuddyGroup)
      → AllVisible ts gs
      → All
          (λ g.
            (is_storage g.node_type && (visible ts g && ltb 0 (count (in_use ts g) ts))) ≡ false)
          gs
      → Agree ts gs
      → All (λ g. All (λ t. agree g (moved t) ≡ true) ts) gs
  free ts [] v c h = tt
  free ts (g ∷ gs) v c h = (
    unmoved ts ts g (λ p. count-none (in_use ts g) ts (ground (arith, p, c.0, v.0))) h.0,
    free ts gs v.1 c.1 h.1,
  )

pub assign_target-Inv :
    (pool uid : ℕ) (s : Store) {u : Unit {0}} {s' : Store}
    → assign_target pool uid s ≡ ok (u, s')
    → Inv s
    → Inv s'
unfolding assign_target
assign_target-Inv pool uid s {u = u} {s' = s'} e inv =
    let n : ℕ =
      count_groups
        (λ g.
          is_storage g.node_type
          && (visible s.targets g && ltb 0 (count (in_use pool uid s.targets g) s.targets)))
        s.groups in
    let test : Target → Bool = λ t. t.target_uid == uid in
    let known : Result (Unit {0}) =
      ensure (count test s.targets == 0 || has_pool pool s.pools) constraint in
    let done : Result (Unit {0} × Store) =
      ok (tt, record s { targets = map (set_target_pool test pool) s.targets }) in
    let (_, (c, e1)) =
      both_ok (ensure (not (ltb 0 n)) in_group)
        (λ _. ensure (all_storage test s.targets) constraint >>= λ _. known >>= λ _. done) (u, s')
        e in
    let (_, (_, e2)) =
      both_ok (ensure (all_storage test s.targets) constraint) (λ _. known >>= λ _. done) (u, s')
        e1 in
    let (_, (_, e3)) = both_ok known (λ _. done) (u, s') e2 in
    let zero : n ≡ 0 = ground (arith, c) in
    updated-Inv (pool_set-KeepsKey test pool) (ground (arith, e3)) (ground (arith, e3))
      (free pool uid s.targets s.groups inv.visible (count_groups-none _ s.groups zero) inv.agree)
      inv

pub assign_targets-Inv :
    (pool : ℕ) (uids : List ℕ) (s : Store) {u : Unit {0}} {s' : Store}
    → assign_targets pool uids s ≡ ok (u, s')
    → Inv s
    → Inv s'
unfolding assign_targets
assign_targets-Inv pool [] s {s' = s'} e inv =
    let same : s ≡ s' = ground (arith, e) in subst Inv same inv
assign_targets-Inv pool (uid ∷ uids) s {u = u} {s' = s'} e inv =
    let (r, (e1, e2)) =
      both_ok (assign_target pool uid s) (λ r. assign_targets pool uids r.1) (u, s') e in
    assign_targets-Inv pool uids r.1 e2 (assign_target-Inv pool uid s e1 inv)

pub assign_group-Inv :
    (pool uid : ℕ) (s : Store) {u : Unit {0}} {s' : Store}
    → assign_group pool uid s ≡ ok (u, s')
    → Inv s
    → Inv s'
unfolding assign_group
assign_group-Inv pool uid s {u = u} {s' = s'} e inv =
    let test : BuddyGroup → Bool = λ g. g.group_uid == uid in
    let known : Result (Unit {0}) =
      ensure (count_groups test s.groups == 0 || has_pool pool s.pools) constraint in
    let storage : Result (Unit {0}) =
      ensure (all_storage (member_of_uid uid s) s.targets) constraint in
    let done : Result (Unit {0} × Store) = ok (
      tt,
      record s {
        groups = map (pool_of_group pool uid) s.groups;
        targets = map (set_target_pool (member_of_uid uid s) pool) s.targets;
      },
    ) in
    let (_, (_, e1)) =
      both_ok (ensure (all_storage_groups test s.groups) constraint)
        (λ _. known >>= λ _. storage >>= λ _. done) (u, s') e in
    let (_, (_, e2)) = both_ok known (λ _. storage >>= λ _. done) (u, s') e1 in
    let (_, (_, e3)) = both_ok storage (λ _. done) (u, s') e2 in
    moved-Inv pool uid s (ground (arith, e3)) (ground (arith, e3)) inv

pub assign_groups-Inv :
    (pool : ℕ) (uids : List ℕ) (s : Store) {u : Unit {0}} {s' : Store}
    → assign_groups pool uids s ≡ ok (u, s')
    → Inv s
    → Inv s'
unfolding assign_groups
assign_groups-Inv pool [] s {s' = s'} e inv =
    let same : s ≡ s' = ground (arith, e) in subst Inv same inv
assign_groups-Inv pool (uid ∷ uids) s {u = u} {s' = s'} e inv =
    let (r, (e1, e2)) =
      both_ok (assign_group pool uid s) (λ r. assign_groups pool uids r.1) (u, s') e in
    assign_groups-Inv pool uids r.1 e2 (assign_group-Inv pool uid s e1 inv)

pub do_assign-Inv :
    (pool : ℕ) (targets groups : List ℕ) (s : Store) {u : Unit {0}} {s' : Store}
    → do_assign pool targets groups s ≡ ok (u, s')
    → Inv s
    → Inv s'
unfolding do_assign
do_assign-Inv pool targets groups s {u = u} {s' = s'} e inv =
    let (r, (e1, e2)) =
      both_ok (assign_targets pool targets s) (λ r. assign_groups pool groups r.1) (u, s') e in
    assign_groups-Inv pool groups r.1 e2 (assign_targets-Inv pool targets s e1 inv)
