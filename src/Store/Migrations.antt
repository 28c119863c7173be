-- ===== src/Store/Migrations.antt =====
-- internal/db/db.go: Migrate. Reading a file and running its SQL are parameters.
pub mod Again
use quarkgate.Exec.{Exec, failure, ok, or_fail, pure, ◌>>=◌, ◌>>◌}
use quarkgate.Prelude.{
  Bool, List, Option, Text, [], any, codes, if◌then◌else◌, ◌++◌, ◌==◌, ◌∷◌, nat_eq, text_eq, int_eq,
}
use quarkgate.Store.{Db, Tables, statement}

module _ (read_file : Text → Option Text) (run_sql : Text → Exec Tables (Unit {0})) where
  abbrev pub applied : Text → Tables → Bool
  applied path t = any (λ p. p == path) t.migrations

  unfoldable pub record_migration : Text → Tables → Tables
  record_migration path t = record t { migrations = t.migrations ++ path ∷ [] }

  -- A path that is not recorded yet: read, run, record.
  unfoldable pub apply_migration : Text → Exec Db (Unit {0})
  unfolding record_migration
  apply_migration path = do
    script ← or_fail (read_file path) (failure (codes "migrate read"))
    statement (run_sql script)
    statement (λ t. (ok tt, record_migration path t))

  -- One round of the loop: a recorded path is passed over.
  unfoldable pub migrate_path : Text → Exec Db (Unit {0})
  migrate_path path = do
    exists ← statement (λ t. (ok (applied path t), t))
    if exists then pure tt else apply_migration path

  unfoldable pub migrate_each : List Text → Exec Db (Unit {0})
  migrate_each [] = pure tt
  migrate_each (path ∷ paths) = migrate_path path >> migrate_each paths

  -- Migrate; `CREATE TABLE IF NOT EXISTS schema_migrations` comes first.
  unfoldable pub migrate : List Text → Exec Db (Unit {0})
  migrate paths = statement (λ t. (ok tt, t)) >> migrate_each paths
