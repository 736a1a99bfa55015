-- ===== src/Db/Invariant/Updates.antt =====
-- Updates of target rows that keep their keys (mgmtd/src/db/target.rs) keep the invariant.
use beegfs_rust.Prelude.{
  ℕ, ◌+◌, ◌==◌, ◌||◌, if◌then◌else◌, true, false, some, List, [], ◌∷◌, All, map, ◌≡◌, subst, refl,
  arith,
}
use beegfs_rust.Result.{Result, ok, both_ok, ◌>>=◌, ensure, constraint}
use beegfs_rust.Types.{NodeTypeServer}
use beegfs_rust.Db.Tables.{Target, BuddyGroup, has_target_id}
use beegfs_rust.Db.Target.Ids.{UniqueTargets}
use beegfs_rust.Db.Store.{Store, has_target, has_node_id}
use beegfs_rust.Db.Changes.{map_node, update_storage_node_mappings}
use beegfs_rust.Db.Invariant.{Inv, agree, Agree, AllVisible}
use beegfs_rust.Db.Invariant.Targets.{rebuilt}

-- The update `f` keeps the key of every row.
pub record KeepsKey (f : Target → Target) : Type 0 where
  pub node_type : (t : Target) → (f t).node_type ≡ t.node_type
  pub target_id : (t : Target) → (f t).target_id ≡ t.target_id

module _ {f : Target → Target} (k : KeepsKey f) where
  pub has_target_id-kept :
      (ty : NodeTypeServer) (i : ℕ) (t : Target) → has_target_id ty i (f t) ≡ has_target_id ty i t
  has_target_id-kept ty i t = rw (k.node_type t, k.target_id t) refl

  pub has_target-map :
      (ty : NodeTypeServer) (i : ℕ) (ts : List Target)
      → has_target ty i (map f ts) ≡ has_target ty i ts
  unfolding has_target
  has_target-map ty i [] = refl
  has_target-map ty i (t ∷ ts) = cc (has_target_id-kept ty i t, has_target-map ty i ts)

  absent-map :
      (t : Target) (ts : List Target)
      → All (λ u. has_target_id t.node_type t.target_id u ≡ false) ts
      → All (λ u. has_target_id (f t).node_type (f t).target_id u ≡ false) (map f ts)
  absent-map t [] h = tt
  absent-map t (u ∷ ts) h =
      (rw (k.node_type t, k.target_id t, k.node_type u, k.target_id u) h.0, absent-map t ts h.1)

  pub Unique-map : (ts : List Target) → UniqueTargets ts → UniqueTargets (map f ts)
  Unique-map [] h = tt
  Unique-map (t ∷ ts) h = (absent-map t ts h.0, Unique-map ts h.1)

  pub visible-map :
      (ts : List Target) (gs : List BuddyGroup) → AllVisible ts gs → AllVisible (map f ts) gs
  visible-map ts [] h = tt
  visible-map ts (g ∷ gs) h = (
    rw (has_target-map g.node_type g.p_target_id ts, has_target-map g.node_type g.s_target_id ts)
        h.0,
    visible-map ts gs h.1,
  )

  -- The pools of the rows still agree with the groups of their members.
  abbrev pub AgreeKept : List Target → List BuddyGroup → Type 0
  AgreeKept ts gs = All (λ g. All (λ t. agree g (f t) ≡ true) ts) gs

  pub All-map : (P : Target → Type 0) (ts : List Target) → All (λ t. P (f t)) ts → All P (map f ts)
  All-map P [] h = tt
  All-map P (t ∷ ts) h = (h.0, All-map P ts h.1)

  pub agree-map : (ts : List Target) (gs : List BuddyGroup) → AgreeKept ts gs → Agree (map f ts) gs
  agree-map ts [] h = tt
  agree-map ts (g ∷ gs) h = (All-map (λ t. agree g t ≡ true) ts h.0, agree-map ts gs h.1)

  -- An update of the targets by `f` that leaves the groups alone.
  pub updated-Inv :
      {s s' : Store}
      → s'.targets ≡ map f s.targets
      → s'.groups ≡ s.groups
      → AgreeKept s.targets s.groups
      → Inv s
      → Inv s'
  updated-Inv {s = s} t g a inv =
      rebuilt inv t g (Unique-map s.targets inv.unique_targets)
        (visible-map s.targets s.groups inv.visible) (agree-map s.targets s.groups a)

-- The row of a target after `map_node`.
abbrev mapped : ℕ → ℕ → Target → Target
mapped node i t =
    if has_target_id NodeTypeServer.storage i t then record t { node_id = some node } else t

mapped-KeepsKey : (node i : ℕ) → KeepsKey (mapped node i)
mapped-KeepsKey node i = record { node_type = λ t. ground arith; target_id = λ t. ground arith }

mapped_lem : (node i : ℕ) (ts : List Target) → (map_node node i ts).1 ≡ map (mapped node i) ts
unfolding map_node
mapped_lem node i [] = refl
mapped_lem node i (t ∷ ts) = ground (arith, mapped_lem node i ts)

agree-mapped :
    (node i : ℕ) (ts : List Target) (gs : List BuddyGroup)
    → Agree ts gs
    → AgreeKept (mapped-KeepsKey node i) ts gs
agree-mapped node i ts [] h = tt
agree-mapped node i ts (g ∷ gs) h = (rows g ts h.0, agree-mapped node i ts gs h.1)
  where
    rows :
        (g : BuddyGroup) (ts : List Target)
        → All (λ t. agree g t ≡ true) ts
        → All (λ t. agree g (mapped node i t) ≡ true) ts
    rows g [] h = tt
    rows g (t ∷ ts) h = (ground (arith, h.0), rows g ts h.1)

pub update_storage_node_mappings-Inv :
    (ids : List ℕ) (node : ℕ) (s : Store) {n : ℕ} {s' : Store}
    → update_storage_node_mappings ids node s ≡ ok (n, s')
    → Inv s
    → Inv s'
unfolding update_storage_node_mappings
update_storage_node_mappings-Inv [] node s {s' = s'} e inv =
    let same : s ≡ s' = ground (arith, e) in subst Inv same inv
update_storage_node_mappings-Inv (i ∷ ids) node s {n = n} {s' = s'} e inv =
    let s1 : Store = record s { targets = (map_node node i s.targets).1 } in
    let rest : Result (ℕ × Store) = update_storage_node_mappings ids node s1 in
    let here : ℕ = (map_node node i s.targets).0 in
    let (_, (p, q)) =
      both_ok (ensure (here == 0 || has_node_id NodeTypeServer.storage node s.nodes) constraint)
        (λ _. rest >>= λ r. ok (here + r.0, r.1)) (n, s') e in
    let ((m, s2), (q1, q2)) = both_ok rest (λ r. ok (here + r.0, r.1)) (n, s') q in
    let same : s2 ≡ s' = ground (arith, q2) in
    subst Inv same (
      update_storage_node_mappings-Inv ids node s1 q1 (
        updated-Inv (mapped-KeepsKey node i) (mapped_lem node i s.targets) refl
          (agree-mapped node i s.targets s.groups inv.agree) inv))
