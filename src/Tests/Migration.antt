-- ===== src/Tests/Migration.antt =====
-- Migrations (sqlite/src/migration.rs) on a database that is the list of the texts that were run on it.
use beegfs_rust.Prelude.{ℕ, false, List, [], ◌∷◌, ◌++◌, ◌≡◌, refl, inr, arith}
use beegfs_rust.Result.{Result, ok, err, up_to_date, ◌>>=◌}
use beegfs_rust.Migration.{
  Migration, Database, check_contiguous, check_migration_versions, check_schema, execute_all,
  migrate_schema,
}
use beegfs_rust.Migration.Pending.{pending, migrate_schema-pending, migrated_once}

abbrev record_sql : List ℕ → List (List ℕ) → Result (List (List ℕ))
record_sql sql tx = ok (tx ++ (sql ∷ []))

abbrev third : Migration
third = record { version = 3; sql = 33 ∷ [] }

abbrev migrations : List Migration
migrations = record { version = 4; sql = 44 ∷ [] } ∷ record { version = 5; sql = 55 ∷ [] } ∷ []

abbrev old : Database (List (List ℕ))
old = record { user_version = 3; content = [] }

abbrev latest : Database (List (List ℕ))
latest = record { user_version = 5; content = (44 ∷ []) ∷ (55 ∷ []) ∷ [] }

migrate_schema-pending_example : migrate_schema record_sql old (third ∷ migrations) ≡ (
    execute_all record_sql (pending 3 (third ∷ migrations)) [] >>= λ content.
    ok (5, record { user_version = 5; content = content }))
unfolding check_migration_versions check_contiguous
migrate_schema-pending_example =
    migrate_schema-pending record_sql third migrations (omega arith) (omega arith) old refl
      (inr (omega arith, omega arith))

migrated_once_example :
    (check_schema latest (third ∷ migrations) ≡ ok false)
    × (migrate_schema record_sql latest (third ∷ migrations) ≡ err up_to_date)
unfolding migrate_schema check_migration_versions check_contiguous execute_all
migrated_once_example = migrated_once record_sql old latest (third ∷ migrations) refl
