-- ===== src/LedgerWorker/Sweeper.antt =====
-- runSweeper of cmd/ledger-worker/main.go: what one tick does with the expired sessions.
pub mod Sound
use quarkgate.Exec.{Exec, Result, attempt, err, ignore, ok, pure, ◌>>=◌, ◌>>◌}
use quarkgate.Json.{Fields, Value}
use quarkgate.Models.{UsageLog, UsageStatus, Uuid}
use quarkgate.Prelude.{List, Text, [], codes, none, pos, true, ℤ, ◌∷◌}
use quarkgate.Redis.Keys.{hold_key}
use quarkgate.Redis.Values.{delete_text}
use quarkgate.Store.Credits.{capture_and_release}
use quarkgate.Store.Usage.{
  delete_metering_session, get_expired_sessions, get_metering_session, get_usage_log_by_request_id,
}
use quarkgate.World.{World, on_db, on_redis}

-- The row that closes an abandoned request.
abbrev pub abandoned : UsageLog → UsageLog
abandoned l = record l {
  status = UsageStatus.failed;
  raw_usage = Fields.field (codes "abandoned") (Value.bool true) Fields.empty;
  normalized_usage = Fields.field (codes "micro_credits") (Value.int (pos 0)) Fields.empty;
  latency_ms = none;
}

abbrev pub hold_or_0 : Result ℤ → ℤ
hold_or_0 (ok n) = n
hold_or_0 (err _) = pos 0

module _ (show_uuid : Uuid → Text) where
  -- The body of the loop for one session; a `continue` is an error that the loop drops.
  unfoldable pub sweep : Uuid → Exec World (Unit {0})
  sweep id = do
    held ← attempt (on_db (get_metering_session id))
    log ← on_db (get_usage_log_by_request_id id)
    on_db (capture_and_release show_uuid log.user_id id (pos 0) (hold_or_0 held) (abandoned log) [])
    ignore (on_db (delete_metering_session id))
    ignore (on_redis (delete_text (hold_key (show_uuid id))))

  unfoldable pub sweep_each : List Uuid → Exec World (Unit {0})
  sweep_each [] = pure tt
  sweep_each (id ∷ ids) = ignore (sweep id) >> sweep_each ids

  -- One tick
  unfoldable pub sweep_tick : Exec World (Unit {0})
  sweep_tick = do ids ← on_db (get_expired_sessions 100); sweep_each ids
