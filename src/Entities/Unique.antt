-- ===== src/Entities/Unique.antt =====
-- Aliases and uids are unique over all entities (mgmtd/src/db/entity.rs, mgmtd/src/grpc/set_alias.rs and
-- the triggers of mgmtd/src/db/schema/1.sql).
use beegfs_rust.Prelude.{
  ℕ, suc, ltb, ◌==◌, ◌&&◌, not, Bool, true, false, none, List, [], ◌∷◌, All, ◌≡◌, refl, subst,
  arith, Bool-cases, Option-cases, inl, inr,
}
use beegfs_rust.Result.{ok}
use beegfs_rust.Types.{NodeType}
use beegfs_rust.Entities.{
  EntityType, Entity, Entities, same_bytes, get_uid, insert, delete, rename, update_alias,
}

same_bytes_sym : (a b : List ℕ) → same_bytes a b ≡ same_bytes b a
unfolding same_bytes
same_bytes_sym [] [] = refl
same_bytes_sym [] (b ∷ bs) = refl
same_bytes_sym (a ∷ as') [] = refl
same_bytes_sym (a ∷ as') (b ∷ bs) = ground (arith, same_bytes_sym as' bs)

abbrev pub differ : Entity → Entity → Bool
differ e f = not (e.uid == f.uid) && not (same_bytes e.alias f.alias)

abbrev pub Differ : List Entity → Type 0
Differ [] = Unit {0}
Differ (e ∷ es) = All (λ f. differ e f ≡ true) es × Differ es

-- Different uids below the counter, and different aliases.
pub record IsUnique (s : Entities) : Type 0 where
  pub different : Differ s.rows
  pub counted : All (λ e. ltb e.uid s.next_uid ≡ true) s.rows

unused :
    (alias : List ℕ) (es : List Entity)
    → get_uid alias es ≡ none
    → All (λ e. same_bytes e.alias alias ≡ false) es
unfolding get_uid
unused alias [] h = tt
unused alias (e ∷ es) h = (ground (arith, h), unused alias es (ground (arith, h)))

different_new :
    (n : ℕ) (ty : EntityType) (alias : List ℕ) (es : List Entity)
    → All (λ e. ltb e.uid n ≡ true) es
    → All (λ e. same_bytes e.alias alias ≡ false) es
    → All (λ f. differ (record { uid = n; entity_type = ty; alias = alias }) f ≡ true) es
different_new n ty alias [] h u = tt
different_new n ty alias (e ∷ es) h u =
    (ground (arith, h.0, u.0, same_bytes_sym alias e.alias), different_new n ty alias es h.1 u.1)

counted_more :
    (n : ℕ) (es : List Entity)
    → All (λ e. ltb e.uid n ≡ true) es
    → All (λ e. ltb e.uid (suc n) ≡ true) es
counted_more n [] h = tt
counted_more n (e ∷ es) h = (ground (arith, h.0), counted_more n es h.1)

insert-IsUnique :
    (ty : EntityType) (alias : List ℕ) (s : Entities) {uid : ℕ} {s' : Entities}
    → insert ty alias s ≡ ok (uid, s')
    → IsUnique s
    → IsUnique s'
unfolding insert
insert-IsUnique ty alias s {uid = uid} {s' = s'} e u = elim (Option-cases (get_uid alias s.rows)) [
  | inr (used, p) ↦ absurd (ground (arith, p, e))
  | inl p ↦
      let row : Entity = record { uid = s.next_uid; entity_type = ty; alias = alias } in
      let same : record { rows = row ∷ s.rows; next_uid = suc s.next_uid } ≡ s' =
        ground (arith, p, e) in
      subst IsUnique same (record {
        different = (
          different_new s.next_uid ty alias s.rows u.counted (unused alias s.rows p),
          u.different,
        );
        counted = (ground arith, counted_more s.next_uid s.rows u.counted);
      })
]

All-delete : (P : Entity → Type 0) (uid : ℕ) (es : List Entity) → All P es → All P (delete uid es)
unfolding delete
All-delete P uid [] h = tt
All-delete P uid (e ∷ es) h = elim (Bool-cases (e.uid == uid)) [
  | inl p ↦ rw p (All-delete P uid es h.1)
  | inr p ↦ rw p (h.0, All-delete P uid es h.1)
]

delete-Differ : (uid : ℕ) (es : List Entity) → Differ es → Differ (delete uid es)
unfolding delete
delete-Differ uid [] d = tt
delete-Differ uid (e ∷ es) d = elim (Bool-cases (e.uid == uid)) [
  | inl p ↦ rw p (delete-Differ uid es d.1)
  | inr p ↦ rw p (All-delete (λ f. differ e f ≡ true) uid es d.0, delete-Differ uid es d.1)
]

-- Renaming: at most one row has the uid, and no row had the alias.
differ_renamed :
    (uid : ℕ) (alias : List ℕ) (e : Entity) (es : List Entity)
    → same_bytes e.alias alias ≡ false
    → All (λ f. differ e f ≡ true) es
    → All (λ f. differ e f ≡ true) (rename uid alias es)
unfolding rename
differ_renamed uid alias e [] n h = tt
differ_renamed uid alias e (f ∷ es) n h = elim (Bool-cases (f.uid == uid)) [
  | inl p ↦ rw p (ground (arith, h.0, n), differ_renamed uid alias e es n h.1)
  | inr p ↦ rw p (h.0, differ_renamed uid alias e es n h.1)
]

renamed_differ :
    (uid : ℕ) (alias : List ℕ) (e : Entity) (es : List Entity)
    → (e.uid == uid) ≡ true
    → All (λ f. same_bytes f.alias alias ≡ false) es
    → All (λ f. differ e f ≡ true) es
    → All (λ f. differ (record e { alias = alias }) f ≡ true) (rename uid alias es)
unfolding rename
renamed_differ uid alias e [] own n h = tt
renamed_differ uid alias e (f ∷ es) own n h =
    ground (
      arith,
      own,
      n.0,
      h.0,
      same_bytes_sym alias f.alias,
      renamed_differ uid alias e es own n.1 h.1,
    )

rename-Differ :
    (uid : ℕ) (alias : List ℕ) (es : List Entity)
    → All (λ f. same_bytes f.alias alias ≡ false) es
    → Differ es
    → Differ (rename uid alias es)
unfolding rename
rename-Differ uid alias [] n d = tt
rename-Differ uid alias (e ∷ es) n d = elim (Bool-cases (e.uid == uid)) [
  | inl p ↦ rw p (renamed_differ uid alias e es p n.1 d.0, rename-Differ uid alias es n.1 d.1)
  | inr p ↦ rw p (differ_renamed uid alias e es n.0 d.0, rename-Differ uid alias es n.1 d.1)
]

counted_renamed :
    (n uid : ℕ) (alias : List ℕ) (es : List Entity)
    → All (λ e. ltb e.uid n ≡ true) es
    → All (λ e. ltb e.uid n ≡ true) (rename uid alias es)
unfolding rename
counted_renamed n uid alias [] h = tt
counted_renamed n uid alias (e ∷ es) h = elim (Bool-cases (e.uid == uid)) [
  | inl p ↦ rw p (h.0, counted_renamed n uid alias es h.1)
  | inr p ↦ rw p (h.0, counted_renamed n uid alias es h.1)
]

update_alias-IsUnique :
    (uid : ℕ) (ty : NodeType) (alias : List ℕ) (s : Entities) {s' : Entities}
    → update_alias uid ty alias s ≡ ok s'
    → IsUnique s
    → IsUnique s'
unfolding update_alias
update_alias-IsUnique uid ty alias s {s' = s'} e u = elim (Option-cases (get_uid alias s.rows)) [
  | inr (used, p) ↦ absurd (ground (arith, p, e))
  | inl p ↦
      let same : record s { rows = rename uid alias s.rows } ≡ s' = ground (arith, p, e) in
      subst IsUnique same (record {
        different = rename-Differ uid alias s.rows (unused alias s.rows p) u.different;
        counted = counted_renamed s.next_uid uid alias s.rows u.counted;
      })
]

-- The statements on the table, from an empty one.
pub data Reach : Entities → Type 0 where
  start : (n : ℕ) → Reach (record { rows = []; next_uid = n })
  inserted :
      (ty : EntityType) (alias : List ℕ) {s s' : Entities} {uid : ℕ}
      → Reach s
      → insert ty alias s ≡ ok (uid, s')
      → Reach s'
  renamed :
      (uid : ℕ) (ty : NodeType) (alias : List ℕ) {s s' : Entities}
      → Reach s
      → update_alias uid ty alias s ≡ ok s'
      → Reach s'
  deleted : (uid : ℕ) {s : Entities} → Reach s → Reach (record s { rows = delete uid s.rows })

pub Reach-IsUnique : {s : Entities} → Reach s → IsUnique s
Reach-IsUnique (start n) = record { different = tt; counted = tt }
Reach-IsUnique (inserted ty alias {s = s} r e) = insert-IsUnique ty alias s e (Reach-IsUnique r)
Reach-IsUnique (renamed uid ty alias {s = s} r e) =
    update_alias-IsUnique uid ty alias s e (Reach-IsUnique r)
Reach-IsUnique (deleted uid {s = s} r) =
    let u = Reach-IsUnique r in
    record {
      different = delete-Differ uid s.rows u.different;
      counted = All-delete (λ e. ltb e.uid s.next_uid ≡ true) uid s.rows u.counted;
    }
