-- ===== src/Db/Invariant/Targets.antt =====
-- Inserting and deleting targets and mapping them to nodes (mgmtd/src/db/target.rs) keep the invariant.
use beegfs_rust.Prelude.{
  ℕ, ◌==◌, ◌&&◌, if◌then◌else◌, true, false, Bool-cases, inl, inr, Option, none, some, List, [],
  ◌∷◌, All, ◌++◌, subst, sym, ◌≡◌, refl, arith,
}
use beegfs_rust.Result.{Result, ok, Result-cases, both_ok, ◌>>=◌}
use beegfs_rust.Types.{NodeTypeServer, TargetConsistencyState}
use beegfs_rust.Entities.{EntityType, codes, user_str, decimal}
use beegfs_rust.Entities
use beegfs_rust.Db.Tables.{
  no_capacities, Target, BuddyGroup, sql_variant, has_target_id, check_affected_rows,
}
use beegfs_rust.Db.Target.Ids.{UniqueTargets}
use beegfs_rust.Db.Misc.{find_new_id}
use beegfs_rust.Db.Store.{
  Store, has_target, in_some_group, is_storage, insert_target, insert_storage, target_ids,
  without_target, delete_storage_target,
}
use beegfs_rust.Db.Invariant.{Inv, agree, Agree, AllVisible, Disjoint}
use beegfs_rust.Db.BuddyGroup.Switchover.{UniqueGroups}

-- A new target: its key is new.
has_target-Unique :
    (ty : NodeTypeServer) (i : ℕ) (ts : List Target)
    → has_target ty i ts ≡ false
    → All (λ u. has_target_id ty i u ≡ false) ts
unfolding has_target
has_target-Unique ty i [] h = tt
has_target-Unique ty i (t ∷ ts) h = (ground arith, has_target-Unique ty i ts (ground arith))

visible-more :
    (t : Target) (ts : List Target) (gs : List BuddyGroup)
    → AllVisible ts gs
    → AllVisible (t ∷ ts) gs
unfolding has_target
visible-more t ts [] h = tt
visible-more t ts (g ∷ gs) h = (ground (arith, h.0), visible-more t ts gs h.1)

-- Members exist, so a target that did not exist is no member.
agree-new :
    (t : Target) (ts : List Target) (gs : List BuddyGroup)
    → has_target t.node_type t.target_id ts ≡ false
    → AllVisible ts gs
    → Agree ts gs
    → Agree (t ∷ ts) gs
agree-new t ts [] e v h = tt
agree-new t ts (g ∷ gs) e v h = ((ground (arith, v.0, e), h.0), agree-new t ts gs e v.1 h.1)

-- One new target, whose key is new, and the same groups.
pub record Inserted (s s' : Store) : Type 0 where
  pub target : Target
  pub new : has_target target.node_type target.target_id s.targets ≡ false
  pub targets : s'.targets ≡ target ∷ s.targets
  pub groups : s'.groups ≡ s.groups

-- The invariant of other targets with the same groups.
pub rebuilt :
    {s s' : Store} {ts : List Target}
    → Inv s
    → s'.targets ≡ ts
    → s'.groups ≡ s.groups
    → UniqueTargets ts
    → AllVisible ts s.groups
    → Agree ts s.groups
    → Inv s'
rebuilt {s = s} {s' = s'} {ts = ts} inv t g u v a = record {
  unique_targets = subst UniqueTargets (sym t) u;
  unique_groups = subst UniqueGroups (sym g) inv.unique_groups;
  disjoint = subst Disjoint (sym g) inv.disjoint;
  visible = subst (λ x. AllVisible x s'.groups) (sym t) (subst (AllVisible ts) (sym g) v);
  agree = subst (λ x. Agree x s'.groups) (sym t) (subst (Agree ts) (sym g) a);
}

pub Inserted-Inv : {s s' : Store} → Inserted s s' → Inv s → Inv s'
Inserted-Inv {s = s} {s' = s'} i inv =
    let t = i.target in
    rebuilt inv i.targets i.groups
      (has_target-Unique t.node_type t.target_id s.targets i.new, inv.unique_targets)
      (visible-more t s.targets s.groups inv.visible)
      (agree-new t s.targets s.groups i.new inv.visible inv.agree)

pub insert_target-Inserted :
    (id : ℕ) (token : Option (List ℕ)) (ty : NodeTypeServer) (node : Option ℕ) (s : Store)
    {u : Unit {0}} {s' : Store}
    → insert_target id token ty node s ≡ ok (u, s')
    → Inserted s s'
unfolding insert_target
insert_target-Inserted id token ty node s e =
    elim (Result-cases
      (Entities.try_from (codes "target_" ++ user_str ty ++ codes "_" ++ decimal id))) [
        | inl p ↦ absurd (ground (arith, p))
        | inr (inl (x, p)) ↦ absurd (ground (arith, p))
        | inr (inr (alias, p)) ↦
            elim (Result-cases (Entities.insert EntityType.target alias s.entities)) [
              | inl q ↦ absurd (ground (arith, p, q))
              | inr (inl (x, q)) ↦ absurd (ground (arith, p, q))
              | inr (inr ((uid, entities), q)) ↦ record {
                target = record {
                  target_uid = uid;
                  node_type = ty;
                  target_id = id;
                  node_id = node;
                  pool_id = if is_storage ty then some 1 else none;
                  consistency = TargetConsistencyState.good;
                  last_update = 0;
                  reg_token = token;
                  capacities = no_capacities;
                };
                new = ground (arith, p, q);
                targets = ground (arith, p, q);
                groups = ground (arith, p, q);
              }
            ]
      ]

pub insert_storage-Inserted :
    (id : ℕ) (token : Option (List ℕ)) (s : Store) {n : ℕ} {s' : Store}
    → insert_storage id token s ≡ ok (n, s')
    → Inserted s s'
unfolding insert_storage
insert_storage-Inserted id token s {n = n} {s' = s'} e =
    let found : Result ℕ =
      if id == 0
      then find_new_id (target_ids NodeTypeServer.storage s.targets) 1 0xffff
      else ok id in
    let insert_at : ℕ → Result (Unit {0} × Store) =
      λ i. insert_target i token NodeTypeServer.storage none s in
    let (i, (_, p)) = both_ok found (λ i. insert_at i >>= λ r. ok (i, r.1)) (n, s') e in
    let ((u, s1), (q, r)) = both_ok (insert_at i) (λ r. ok (i, r.1)) (n, s') p in
    let same : s1 ≡ s' = ground (arith, r) in
    subst (Inserted s) same (insert_target-Inserted i token NodeTypeServer.storage none s q)

-- A property of all rows holds of those that are left.
All-without :
    (P : Target → Type 0) (ty : NodeTypeServer) (i : ℕ) (ts : List Target)
    → All P ts
    → All P (without_target ty i ts)
unfolding without_target
All-without P ty i [] h = tt
All-without P ty i (t ∷ ts) h = elim (Bool-cases (has_target_id ty i t)) [
  | inl p ↦ rw p (All-without P ty i ts h.1)
  | inr p ↦ rw p (h.0, All-without P ty i ts h.1)
]

without-Unique :
    (ty : NodeTypeServer) (i : ℕ) (ts : List Target)
    → UniqueTargets ts
    → UniqueTargets (without_target ty i ts)
unfolding without_target
without-Unique ty i [] h = tt
without-Unique ty i (t ∷ ts) h = elim (Bool-cases (has_target_id ty i t)) [
  | inl p ↦ rw p (without-Unique ty i ts h.1)
  | inr p ↦ rw p (
    All-without (λ u. has_target_id t.node_type t.target_id u ≡ false) ty i ts h.0,
    without-Unique ty i ts h.1,
  )
]

-- Every other target is still there.
has_target-without :
    (ty uy : NodeTypeServer) (i j : ℕ) (ts : List Target)
    → (sql_variant ty == sql_variant uy && i == j) ≡ false
    → has_target uy j (without_target ty i ts) ≡ has_target uy j ts
unfolding without_target has_target
has_target-without ty uy i j [] h = refl
has_target-without ty uy i j (t ∷ ts) h = ground (arith, has_target-without ty uy i j ts h)

visible-without :
    (ty : NodeTypeServer) (i : ℕ) (ts : List Target) (gs : List BuddyGroup)
    → in_some_group ty i gs ≡ false
    → AllVisible ts gs
    → AllVisible (without_target ty i ts) gs
unfolding in_some_group
visible-without ty i ts [] e h = tt
visible-without ty i ts (g ∷ gs) e h = (
  ground (
    arith,
    h.0,
    e,
    has_target-without ty g.node_type i g.p_target_id ts,
    has_target-without ty g.node_type i g.s_target_id ts,
  ),
  visible-without ty i ts gs (ground (arith, e)) h.1,
)

agree-without :
    (ty : NodeTypeServer) (i : ℕ) (ts : List Target) (gs : List BuddyGroup)
    → Agree ts gs
    → Agree (without_target ty i ts) gs
agree-without ty i ts [] h = tt
agree-without ty i ts (g ∷ gs) h =
    (All-without (λ t. agree g t ≡ true) ty i ts h.0, agree-without ty i ts gs h.1)

pub delete_storage_target-Inv :
    (i : ℕ) (s : Store) {u : Unit {0}} {s' : Store}
    → delete_storage_target i s ≡ ok (u, s')
    → Inv s
    → Inv s'
unfolding delete_storage_target check_affected_rows
delete_storage_target-Inv i s {s' = s'} e inv =
    let free : in_some_group NodeTypeServer.storage i s.groups ≡ false = ground (arith, e) in
    let left : s'.targets ≡ without_target NodeTypeServer.storage i s.targets = ground (arith, e) in
    let kept : s'.groups ≡ s.groups = ground (arith, e) in
    rebuilt inv left kept (without-Unique NodeTypeServer.storage i s.targets inv.unique_targets)
      (visible-without NodeTypeServer.storage i s.targets s.groups free inv.visible)
      (agree-without NodeTypeServer.storage i s.targets s.groups inv.agree)
