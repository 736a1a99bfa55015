-- ===== src/Migration.antt =====
-- The schema migrations (sqlite/src/migration.rs). The numbers are `u32`, whose operations wrap round
-- in a release build. Running an SQL text on a database is SQLite's: a parameter.
pub mod Pending
use beegfs_rust.Prelude.{
  ℕ, zero, suc, ◌+◌, ◌-◌, ◌%◌, ◌^◌, leb, ltb, ◌==◌, ◌&&◌, ◌||◌, not, if◌then◌else◌, Bool, true,
  false, List, [], ◌∷◌, drop, map,
}
use beegfs_rust.Result.{
  Result, ok, err, no_migrations, not_contiguous, up_to_date, outside_range, ◌>>=◌, ◌>>◌, ensure,
}

pub record Migration : Type 0 where
  pub version : ℕ
  pub sql : List ℕ

unfoldable pub check_contiguous : ℕ → List ℕ → Result ℕ
check_contiguous latest [] = ok latest
check_contiguous latest (version ∷ m) = do
  ensure (version == (latest + 1) % 2 ^ 32) not_contiguous
  check_contiguous version m

unfoldable pub check_migration_versions : List ℕ → Result (ℕ × ℕ)
unfolding check_contiguous
check_migration_versions [] = err no_migrations
check_migration_versions (base ∷ m) = do latest ← check_contiguous base m; ok (base, latest)

abbrev pub versions : List Migration → List ℕ
versions migrations = map (λ m. m.version) migrations

-- `(base..latest).contains(&version)`
abbrev pub in_range : ℕ → ℕ → ℕ → Bool
in_range base latest version = leb base version && ltb version latest

-- A database: the header variable `user_version`, and the rest.
pub record Database (Content : Type 0) : Type 0 where
  pub user_version : ℕ
  pub content : Content

unfoldable pub check_schema : {Content : Type 0} → Database Content → List Migration → Result Bool
unfolding check_migration_versions
check_schema tx migrations = do
  (base, latest) ← check_migration_versions (versions migrations)
  (if tx.user_version == latest
      then ok false
      else if in_range base latest tx.user_version
      then ok true
      else err outside_range)

module _ {Content : Type 0} (execute_batch : List ℕ → Content → Result Content) where
  unfoldable pub execute_all : List Migration → Content → Result Content
  execute_all [] tx = ok tx
  execute_all (m ∷ ms) tx = do tx' ← execute_batch m.sql tx; execute_all ms tx'

  unfoldable pub migrate_schema : Database Content → List Migration → Result (ℕ × Database Content)
  unfolding check_migration_versions execute_all
  migrate_schema tx migrations = do
    (base, latest) ← check_migration_versions (versions migrations)
    ensure (not (tx.user_version == latest)) up_to_date
    ensure (tx.user_version == 0 || in_range base latest tx.user_version) outside_range
    let version = if tx.user_version == 0 then (base + 2 ^ 32 - 1) % 2 ^ 32 else tx.user_version
    content ← execute_all (drop ((1 + version + 2 ^ 32 - base) % 2 ^ 32) migrations) tx.content
    ok (latest, record { user_version = latest; content = content })
