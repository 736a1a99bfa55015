-- ===== src/Migration/Pending.antt =====
-- `migrate_schema` (sqlite/src/migration.rs) applies the migrations that the database lacks.
use beegfs_rust.Prelude.{
  ℕ, zero, suc, ◌+◌, ◌-◌, ◌%◌, ◌^◌, ◌≤◌, ◌<◌, ltb, ◌==◌, ◌||◌, not, if◌then◌else◌, false, List, [],
  ◌∷◌, drop, length, ◌≡◌, refl, sym, subst, arith, Bool-cases, inl, inr, ◌⊎◌,
}
use beegfs_rust.Result.{
  Result, ok, err, not_contiguous, up_to_date, outside_range, ◌>>=◌, ensure, both_ok,
}
use beegfs_rust.Migration.{
  Migration, Database, check_contiguous, check_migration_versions, versions, in_range, check_schema,
  execute_all, migrate_schema,
}

-- The versions count up from `first`.
abbrev pub Counts : ℕ → List Migration → Type 0
Counts first [] = Unit {0}
Counts first (m ∷ ms) = (m.version ≡ first) × Counts (suc first) ms

-- The migrations after a version, whatever their place.
abbrev pub pending : ℕ → List Migration → List Migration
pending v [] = []
pending v (m ∷ ms) = if ltb v m.version then m ∷ pending v ms else pending v ms

counted :
    (b : ℕ) (ms : List Migration) {latest : ℕ}
    → b + length ms < 2 ^ 32
    → check_contiguous b (versions ms) ≡ ok latest
    → Counts (suc b) ms × (latest ≡ b + length ms)
unfolding check_contiguous
counted b [] h e = (tt, ground (arith, e))
counted b (m ∷ ms) {latest = latest} h e =
    let (_, (c, e1)) =
      both_ok (ensure (m.version == (b + 1) % 2 ^ 32) not_contiguous)
        (λ _. check_contiguous m.version (versions ms)) latest e in
    let next : m.version ≡ suc b = ground (arith, c, h) in
    let (counts, last) =
      counted (suc b) ms {latest = latest} (omega (arith, h))
        (subst (λ v. check_contiguous v (versions ms) ≡ ok latest) next e1) in
    ((next, counts), omega (arith, last))

all_pending : (v b : ℕ) (ms : List Migration) → Counts b ms → v < b → pending v ms ≡ ms
all_pending v b [] c h = refl
all_pending v b (m ∷ ms) c h = ground (arith, c.0, all_pending v (suc b) ms c.1 (omega (arith, h)))

-- The migrations that a jump over the known ones leaves are the pending ones.
drop-pending :
    (v b : ℕ) (ms : List Migration) → Counts b ms → b ≤ suc v → drop (suc v - b) ms ≡ pending v ms
drop-pending v b [] c h = elim (suc v - b) as (λ n. drop n [] ≡ pending v []) [
  | zero ↦ refl
  | suc n ↦ refl
]
drop-pending v b (m ∷ ms) c h = elim (Bool-cases (ltb v b)) [
  | inl p ↦
      let none : suc v - b ≡ 0 = ground (arith, p, h) in
      rw none (sym (all_pending v b (m ∷ ms) c (ground (arith, p))))
  | inr p ↦
      let more : suc v - b ≡ suc (suc v - suc b) = ground (arith, p, h) in
      rw more (ground (arith, c.0, p, drop-pending v (suc b) ms c.1 (ground (arith, p))))
]

module _ {Content : Type 0} (execute_batch : List ℕ → Content → Result Content) (m : Migration)
    (ms : List Migration) (first : 0 < m.version) (bound : m.version + length ms < 2 ^ 32) where
  -- The check of the versions finds the first and the last one.
  versions_lem :
      {base latest : ℕ}
      → check_migration_versions (versions (m ∷ ms)) ≡ ok (base, latest)
      → (base ≡ m.version) × (Counts m.version (m ∷ ms) × (latest ≡ m.version + length ms))
  unfolding check_migration_versions
  versions_lem {base = base} {latest = latest} e =
      let (l, (c, e1)) =
        both_ok (check_contiguous m.version (versions ms)) (λ l. ok (m.version, l)) (base, latest)
          e in
      let (counts, last) = counted m.version ms bound c in
      (ground (arith, e1), ((refl, counts), ground (arith, e1, last)))

  -- On a database of a version before the latest one, or a new one, `migrate_schema` runs the migrations
  -- with higher versions, all of them and in their order, and sets the version to the latest one.
  pub migrate_schema-pending :
      (tx : Database Content) {base latest : ℕ}
      → check_migration_versions (versions (m ∷ ms)) ≡ ok (base, latest)
      → (tx.user_version ≡ 0) ⊎ ((base ≤ tx.user_version) × (tx.user_version < latest))
      → migrate_schema execute_batch tx (m ∷ ms) ≡ (
          execute_all execute_batch (pending tx.user_version (m ∷ ms)) tx.content >>= λ content.
          ok (latest, record { user_version = latest; content = content }))
  unfolding migrate_schema
  migrate_schema-pending tx {base = base} {latest = latest} c (inl z) =
      let (is_base, (counts, last)) = versions_lem c in
      let jump : (1 + (base + 2 ^ 32 - 1) % 2 ^ 32 + 2 ^ 32 - base) % 2 ^ 32 ≡ 0 =
        ground (arith, is_base, first, bound) in
      let all : pending 0 (m ∷ ms) ≡ m ∷ ms = all_pending 0 m.version (m ∷ ms) counts first in
      ground (arith, c, z, jump, all, last, is_base, first)
  migrate_schema-pending tx {base = base} {latest = latest} c (inr r) =
      let (is_base, (counts, last)) = versions_lem c in
      let jump : (1 + tx.user_version + 2 ^ 32 - base) % 2 ^ 32 ≡ suc tx.user_version - base =
        ground (arith, is_base, first, bound, last, r.0, r.1) in
      let left =
        drop-pending tx.user_version m.version (m ∷ ms) counts (omega (arith, is_base, r.0)) in
      ground (arith, c, jump, left, is_base, first, r.0, r.1)

-- After a migration that succeeds, the schema check finds the database up to date, and a further
-- migration with the same list is refused.
pub migrated_once :
    {Content : Type 0} (execute_batch : List ℕ → Content → Result Content)
    (tx tx' : Database Content) (migrations : List Migration) {latest : ℕ}
    → migrate_schema execute_batch tx migrations ≡ ok (latest, tx')
    → (check_schema tx' migrations ≡ ok false)
      × (migrate_schema execute_batch tx' migrations ≡ err up_to_date)
unfolding migrate_schema check_schema
migrated_once {Content = Content} execute_batch tx tx' migrations {latest = latest} e =
    let version : ℕ → ℕ =
      λ base. if tx.user_version == 0 then (base + 2 ^ 32 - 1) % 2 ^ 32 else tx.user_version in
    let run : ℕ → Result Content = λ base.
      execute_all execute_batch (drop ((1 + version base + 2 ^ 32 - base) % 2 ^ 32) migrations)
        tx.content in
    let done : ℕ → Content → Result (ℕ × Database Content) =
      λ l content. ok (l, record { user_version = l; content = content }) in
    let lower : ℕ × ℕ → Result (Unit {0}) =
      λ r. ensure (tx.user_version == 0 || in_range r.0 r.1 tx.user_version) outside_range in
    let new : ℕ × ℕ → Result (Unit {0}) = λ r. ensure (not (tx.user_version == r.1)) up_to_date in
    let (r, (c, e1)) =
      both_ok (check_migration_versions (versions migrations))
        (λ r. new r >>= λ _. lower r >>= λ _. run r.0 >>= done r.1) (latest, tx') e in
    let (_, (_, e2)) =
      both_ok (new r) (λ _. lower r >>= λ _. run r.0 >>= done r.1) (latest, tx') e1 in
    let (_, (_, e3)) = both_ok (lower r) (λ _. run r.0 >>= done r.1) (latest, tx') e2 in
    let (content, (_, e4)) = both_ok (run r.0) (done r.1) (latest, tx') e3 in
    let same : tx'.user_version ≡ r.1 = ground (arith, e4) in
    (ground (arith, c, same), ground (arith, c, same))
