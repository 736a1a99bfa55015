-- ===== src/Db/Invariant/Contact.antt =====
-- The updates of the consistency, the times and the capacities of targets (mgmtd/src/db/target.rs,
-- mgmtd/src/bee_msg/common.rs) keep the invariant.
use beegfs_rust.Prelude.{
  ℕ, ◌&&◌, not, if◌then◌else◌, true, none, some, List, [], ◌∷◌, All, map, ◌≡◌, subst, sym, refl, ap,
  arith,
}
use beegfs_rust.Result.{Result, ok, err, no_rows, both_ok, ◌>>=◌}
use beegfs_rust.Types.{NodeTypeServer, TargetConsistencyState}
use beegfs_rust.Db.Tables.{Target, TargetCapacities, BuddyGroup, has_target_id, find_target}
use beegfs_rust.Db.Target.{
  same_consistency, update_consistency_state, update_consistency_states, update_last_update,
  update_last_contact_times,
}
use beegfs_rust.Db.Capacities.{set_capacities, get_and_update_capacities}
use beegfs_rust.Db.Store.{Store}
use beegfs_rust.Db.Invariant.{Inv, agree, Agree}
use beegfs_rust.Db.Invariant.Updates.{KeepsKey, updated-Inv, AgreeKept}

-- An update that keeps the pool of every row as well.
module _ {f : Target → Target} (k : KeepsKey f)
    (pool : (t : Target) → (f t).pool_id ≡ t.pool_id) where
  rows_agree :
      (g : BuddyGroup) (ts : List Target)
      → All (λ t. agree g t ≡ true) ts
      → All (λ t. agree g (f t) ≡ true) ts
  rows_agree g [] h = tt
  rows_agree g (t ∷ ts) h = (rw (k.node_type t, k.target_id t, pool t) h.0, rows_agree g ts h.1)

  all_agree : (ts : List Target) (gs : List BuddyGroup) → Agree ts gs → AgreeKept k ts gs
  all_agree ts [] h = tt
  all_agree ts (g ∷ gs) h = (rows_agree g ts h.0, all_agree ts gs h.1)

  pub pools_kept-Inv :
      {s s' : Store} → s'.targets ≡ map f s.targets → s'.groups ≡ s.groups → Inv s → Inv s'
  pools_kept-Inv {s = s} t g inv = updated-Inv k t g (all_agree s.targets s.groups inv.agree) inv

abbrev changed : NodeTypeServer → ℕ × TargetConsistencyState → Target → Target
changed ty e t =
    if not (same_consistency t.consistency e.1) && has_target_id ty e.0 t
    then record t { consistency = e.1 }
    else t

changed-KeepsKey : (ty : NodeTypeServer) (e : ℕ × TargetConsistencyState) → KeepsKey (changed ty e)
changed-KeepsKey ty e = record { node_type = λ t. ground arith; target_id = λ t. ground arith }

changed_lem :
    (ty : NodeTypeServer) (e : ℕ × TargetConsistencyState) (ts : List Target)
    → (update_consistency_state ty e ts).1 ≡ map (changed ty e) ts
unfolding update_consistency_state
changed_lem ty e [] = refl
changed_lem ty e (t ∷ ts) = ground (arith, changed_lem ty e ts)

pub update_consistency_states-Inv :
    (ty : NodeTypeServer) (changes : List (ℕ × TargetConsistencyState)) (s : Store)
    → Inv s
    → Inv (record s { targets = (update_consistency_states ty changes s.targets).1 })
unfolding update_consistency_states
update_consistency_states-Inv ty [] s inv =
    pools_kept-Inv (unchanged-KeepsKey) (λ t. refl) (sym (map_id s.targets)) refl inv
  where
    unchanged-KeepsKey : KeepsKey (λ t. t)
    unchanged-KeepsKey = record { node_type = λ t. refl; target_id = λ t. refl }

    map_id : (ts : List Target) → map (λ t. t) ts ≡ ts
    map_id [] = refl
    map_id (t ∷ ts) = ap (λ r. t ∷ r) (map_id ts)
update_consistency_states-Inv ty (e ∷ changes) s inv =
    update_consistency_states-Inv ty changes
      (record s { targets = (update_consistency_state ty e s.targets).1 })
      (pools_kept-Inv (changed-KeepsKey ty e) (λ t. ground arith) (changed_lem ty e s.targets) refl
        inv)

pub update_last_contact_times-Inv :
    (now : ℕ) (ids : List ℕ) (ty : NodeTypeServer) (timeout : ℕ) (s : Store)
    → Inv s
    → Inv (record s {
      nodes = (update_last_contact_times now ids ty timeout s.nodes s.targets).1.0;
      targets = (update_last_contact_times now ids ty timeout s.nodes s.targets).1.1;
    })
unfolding update_last_contact_times update_last_update
update_last_contact_times-Inv now ids ty timeout s inv =
    pools_kept-Inv (record { node_type = λ t. ground arith; target_id = λ t. ground arith })
      (λ t. ground arith) refl refl inv

capacities-KeepsKey : (uid : ℕ) (new : TargetCapacities) → KeepsKey (set_capacities uid new)
capacities-KeepsKey uid new = record {
  node_type = λ t. ground arith;
  target_id = λ t. ground arith;
}

pub get_and_update_capacities-Inv :
    (items : List (Result (ℕ × TargetCapacities))) (ty : NodeTypeServer) (s : Store)
    {old : List (ℕ × TargetCapacities)} {ts : List Target}
    → get_and_update_capacities items ty s.targets ≡ ok (old, ts)
    → Inv s
    → Inv (record s { targets = ts })
unfolding get_and_update_capacities
get_and_update_capacities-Inv [] ty s {ts = ts} e inv =
    let same : s.targets ≡ ts = ground (arith, e) in
    subst (λ x. Inv (record s { targets = x })) same
      (record {
        unique_targets = inv.unique_targets;
        unique_groups = inv.unique_groups;
        disjoint = inv.disjoint;
        visible = inv.visible;
        agree = inv.agree;
      })
get_and_update_capacities-Inv (item ∷ items) ty s {old = old} {ts = ts} e inv =
    let found : ℕ → Result Target =
      λ i. elim (find_target ty i s.targets) [ none ↦ err no_rows | some t ↦ ok t ] in
    let rest : Target → TargetCapacities → Result (List (ℕ × TargetCapacities) × List Target) =
      λ t new.
        get_and_update_capacities items ty (map (set_capacities t.target_uid new) s.targets) in
    let (i, (_, e1)) =
      both_ok item (λ i. found i.0 >>= λ t. rest t i.1 >>= λ r. ok ((i.0, t.capacities) ∷ r.0, r.1))
        (old, ts) e in
    let (t, (_, e2)) =
      both_ok (found i.0) (λ t. rest t i.1 >>= λ r. ok ((i.0, t.capacities) ∷ r.0, r.1)) (old, ts)
        e1 in
    let (r, (e3, e4)) =
      both_ok (rest t i.1) (λ r. ok ((i.0, t.capacities) ∷ r.0, r.1)) (old, ts) e2 in
    let same : r.1 ≡ ts = ground (arith, e4) in
    let moved : Store = record s { targets = map (set_capacities t.target_uid i.1) s.targets } in
    subst (λ x. Inv (record s { targets = x })) same
      (get_and_update_capacities-Inv items ty moved {old = r.0} {ts = r.1} e3
        (pools_kept-Inv (capacities-KeepsKey t.target_uid i.1) (λ t. ground arith) refl refl inv))
