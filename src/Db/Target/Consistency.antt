-- ===== src/Db/Target/Consistency.antt =====
-- `update_consistency_states` (mgmtd/src/db/target.rs) row by row.
use beegfs_rust.Prelude.{
  ℕ, ◌≡◌, refl, sym, ap, ◌∙◌, if◌then◌else◌, Bool-cases, inl, inr, true, List, [], ◌∷◌, map, arith,
}
use beegfs_rust.Types.{NodeTypeServer, TargetConsistencyState}
use beegfs_rust.Db.Tables.{Target, has_target_id}
use beegfs_rust.Db.Target.{same_consistency, update_consistency_state, update_consistency_states}

same_consistency_lem : (a b : TargetConsistencyState) → same_consistency a b ≡ true → a ≡ b
same_consistency_lem TargetConsistencyState.good TargetConsistencyState.good e = refl
same_consistency_lem TargetConsistencyState.good TargetConsistencyState.needs_resync e = absurd (cc)
same_consistency_lem TargetConsistencyState.good TargetConsistencyState.bad e = absurd (cc)
same_consistency_lem TargetConsistencyState.needs_resync TargetConsistencyState.good e = absurd (cc)
same_consistency_lem TargetConsistencyState.needs_resync TargetConsistencyState.needs_resync e =
    refl
same_consistency_lem TargetConsistencyState.needs_resync TargetConsistencyState.bad e = absurd (cc)
same_consistency_lem TargetConsistencyState.bad TargetConsistencyState.good e = absurd (cc)
same_consistency_lem TargetConsistencyState.bad TargetConsistencyState.needs_resync e = absurd (cc)
same_consistency_lem TargetConsistencyState.bad TargetConsistencyState.bad e = refl

-- A target after all changes: of those for its type and id, the last one counts.
abbrev pub changed : NodeTypeServer → List (ℕ × TargetConsistencyState) → Target → Target
changed ty [] t = t
changed ty (e ∷ es) t =
    changed ty es (if has_target_id ty e.0 t then record t { consistency = e.1 } else t)

one_change :
    (ty : NodeTypeServer) (e : ℕ × TargetConsistencyState) (ts : List Target)
    → (update_consistency_state ty e ts).1
      ≡ map (λ t. if has_target_id ty e.0 t then record t { consistency = e.1 } else t) ts
unfolding update_consistency_state
one_change ty e [] = refl
one_change ty e (t ∷ ts) = elim (Bool-cases (same_consistency t.consistency e.1)) [
  | inl p ↦ ground (arith, p, same_consistency_lem t.consistency e.1 p, one_change ty e ts)
  | inr p ↦ ground (arith, p, one_change ty e ts)
]

pub map-map :
    {A B C : Type 0} (f : B → C) (g : A → B) (xs : List A)
    → map f (map g xs) ≡ map (λ x. f (g x)) xs
map-map f g [] = refl
map-map f g (x ∷ xs) = ap (λ r. f (g x) ∷ r) (map-map f g xs)

map_same : {A : Type 0} (xs : List A) → map (λ x. x) xs ≡ xs
map_same [] = refl
map_same (x ∷ xs) = ap (λ r. x ∷ r) (map_same xs)

-- The changed states of a list of changes are, row by row, those of the last change for the row; the
-- rows themselves and all other columns stay.
pub update_consistency_states-changed :
    (ty : NodeTypeServer) (changes : List (ℕ × TargetConsistencyState)) (ts : List Target)
    → (update_consistency_states ty changes ts).1 ≡ map (changed ty changes) ts
unfolding update_consistency_states
update_consistency_states-changed ty [] ts = sym (map_same ts)
update_consistency_states-changed ty (e ∷ es) ts =
    update_consistency_states-changed ty es _
    ∙ (ap (map (changed ty es)) (one_change ty e ts) ∙ map-map (changed ty es) _ ts)

no_change :
    (ty : NodeTypeServer) (e : ℕ × TargetConsistencyState) (ts : List Target)
    → (update_consistency_state ty e ts).0 ≡ 0
    → (update_consistency_state ty e ts).1 ≡ ts
unfolding update_consistency_state
no_change ty e [] h = refl
no_change ty e (t ∷ ts) h = ground (arith, no_change ty e ts)

-- If no row is counted as affected, the targets are as they were.
pub update_consistency_states-zero :
    (ty : NodeTypeServer) (changes : List (ℕ × TargetConsistencyState)) (ts : List Target)
    → (update_consistency_states ty changes ts).0 ≡ 0
    → (update_consistency_states ty changes ts).1 ≡ ts
unfolding update_consistency_states
update_consistency_states-zero ty [] ts h = refl
update_consistency_states-zero ty (e ∷ es) ts h =
    let first : (update_consistency_state ty e ts).0 ≡ 0 = omega arith in
    let same : (update_consistency_state ty e ts).1 ≡ ts = no_change ty e ts first in
    ground (arith, update_consistency_states-zero ty es (update_consistency_state ty e ts).1)
