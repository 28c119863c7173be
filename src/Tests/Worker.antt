-- ===== src/Tests/Worker.antt =====
-- The theorems on the sweeper, the migrations and the shutdown.
use quarkgate.Exec.{Exec, ok}
use quarkgate.Gateway.Serve.{shut_down, shut_down_ends}
use quarkgate.Json.{Fields}
use quarkgate.LedgerWorker.Sweeper.{sweep_tick}
use quarkgate.LedgerWorker.Sweeper.Sound.{sweep_tick-IsSound}
use quarkgate.Models.{MeteringSession, UsageLog, UsageStatus}
use quarkgate.Prelude.{
  Option, Text, [], arith, codes, int_laws, none, pos, refl, some, ℕ, ℤ, ◌*◌, ◌+◌, ◌-◌, ◌∷◌, ◌≡◌,
  ◌≤ℤ◌, ◌≤◌, ◌⊎◌,
}
use quarkgate.Store.{Db, Tables, statement}
use quarkgate.Store.Balance.{IsSound}
use quarkgate.Store.Migrations.{
  migrate, apply_migration, migrate_each, migrate_path, record_migration,
}
use quarkgate.Store.Migrations.Again.{migrate-again}
use quarkgate.Tests.Credits.{database, tables-IsSound}
use quarkgate.Tests.Redis.{world}
use quarkgate.Tests.Replay.{show}
use quarkgate.World.{World}
use quarkgate.World.Sound.{IsSound-same}

abbrev expired : MeteringSession
expired = record { request_id = 9; user_id = 1; hold = pos 100; expires_at = 15 }

abbrev open_log : UsageLog
open_log = record {
  id = 8;
  user_id = 1;
  key_id = 5;
  provider_slug = codes "vast";
  operation = codes "run";
  request_id = 9;
  status = UsageStatus.pending;
  raw_usage = Fields.empty;
  normalized_usage = Fields.empty;
  credits_reserved = pos 100;
  credits_captured = pos 0;
  latency_ms = none;
  trace_id = [];
  started_at = 10;
  completed_at = none;
  capture_txn = none;
  release_txn = none;
}

abbrev abandoned_tables : Tables
abandoned_tables = record database.tables { sessions = expired ∷ []; usage_logs = open_log ∷ [] }

abbrev abandoned_world : World
abandoned_world = record world { db = record database { tables = abandoned_tables } }

sweep_tick-IsSound_example : IsSound (sweep_tick show abandoned_world).1.db.tables
sweep_tick-IsSound_example =
    sweep_tick-IsSound show abandoned_world
      (IsSound-same database.tables abandoned_tables refl refl tables-IsSound)
      ((omega int_laws, omega int_laws), tt)

abbrev read_script : Text → Option Text
read_script path = some (codes "CREATE TABLE")

abbrev run_script : Text → Exec Tables (Unit {0})
run_script script t = (ok tt, t)

abbrev migrated : Db
migrated = (migrate read_script run_script (codes "001" ∷ codes "002" ∷ []) database).1

migrated_run :
    migrate read_script run_script (codes "001" ∷ codes "002" ∷ []) database ≡ (ok tt, migrated)
unfolding migrate migrate_each migrate_path apply_migration record_migration statement
migrated_run = refl

migrate-again_example :
    (migrate read_script run_script (codes "001" ∷ codes "002" ∷ []) migrated).1.tables
    ≡ migrated.tables
migrate-again_example =
    migrate-again read_script run_script (codes "001" ∷ codes "002" ∷ []) database migrated
      (λ s t. refl) migrated_run

-- Two requests end in the first and the second round.
abbrev two_left : ℕ → ℤ
two_left k = pos (2 - k)

abbrev every_100 : ℕ → ℕ
every_100 k = 100 * k

shut_down_ends_example :
    (n : ℕ) × (shut_down two_left every_100 ≡ some n)
    × ((two_left n ≤ℤ pos 0) ⊎ (every_100 0 + 30000 ≤ every_100 n))
shut_down_ends_example = shut_down_ends two_left every_100 (λ n. omega arith)
