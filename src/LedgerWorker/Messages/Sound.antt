-- ===== src/LedgerWorker/Messages/Sound.antt =====
-- A batch of messages and the invariant of the credit tables.
use quarkgate.Exec.{Exec, Result, err, ok, attempt, ◌>>=◌}
use quarkgate.LedgerWorker.Messages.{
  after_process, handle_message, handle_messages, process_batch, retire, messages_or_none,
}
use quarkgate.Metering.Normalize.{FloatOps}
use quarkgate.Metering.Worker.{Codec, Normalizer, WorkerConfig, process_event}
use quarkgate.Metering.Worker.Amounts.{IsInt64}
use quarkgate.Metering.Worker.Sound.{process_event-KeepsSound}
use quarkgate.Prelude.{Bool-cases, Dict, List, Text, [], inl, inr, leb, ℕ, ◌∷◌}
use quarkgate.Redis.{Message, Redis}
use quarkgate.Redis.Stream.{message_deliveries, auto_claim_meter_events, read_meter_events}
use quarkgate.Store.Balance.{IsSound}
use quarkgate.World.{World, on_redis}
use quarkgate.World.Sound.{KeepsSound, KeepsSound-then}

module _ (process : Dict Text Text → Exec World (Unit {0})) (max_retries : ℕ)
    (keeps : (values : Dict Text Text) → KeepsSound (process values)) where
  -- Redis alone changes after the processing.
  after_process-IsSound :
      (m : Message) (r : Result (Unit {0})) (w : World)
      → IsSound w.db.tables
      → IsSound (after_process process max_retries m r w).1.db.tables
  unfolding retire
  after_process-IsSound m (ok _) w s = s
  after_process-IsSound m (err e) w s =
      elim (Bool-cases (leb max_retries (message_deliveries m.id w.redis).0)) [
        | inl spent ↦ rw spent s
        | inr left ↦ rw left s
      ]

  handle_message-KeepsSound : (m : Message) → KeepsSound (handle_message process max_retries m)
  unfolding handle_message
  handle_message-KeepsSound m = record {
    at = λ w s.
        after_process-IsSound m (process m.values w).0 (process m.values w).1
          ((keeps m.values).at w s);
  }

  handle_messages-KeepsSound :
      (ms : List Message) → KeepsSound (handle_messages process max_retries ms)
  unfolding handle_messages
  handle_messages-KeepsSound [] = record { at = λ w s. s }
  handle_messages-KeepsSound (m ∷ ms) =
      KeepsSound-then (handle_message process max_retries m)
        (handle_messages process max_retries ms) (handle_message-KeepsSound m)
        (handle_messages-KeepsSound ms)

  -- A list that was read from Redis, or could not be read.
  read-KeepsSound :
      (m : Exec Redis (List Message)) (rest : Result (List Message) → Exec World (Unit {0}))
      → ((r : Result (List Message)) → KeepsSound (rest r))
      → KeepsSound (attempt (on_redis m) >>= rest)
  read-KeepsSound m rest k = record {
    at = λ w s. (k (m w.redis).0).at (record w { redis = (m w.redis).1 }) s;
  }

  -- A whole batch keeps the invariant, if the processing of each message does.
  pub process_batch-KeepsSound : KeepsSound (process_batch process max_retries)
  unfolding process_batch
  process_batch-KeepsSound = read-KeepsSound (auto_claim_meter_events 30 10) _ λ claimed.
      KeepsSound-then
        (handle_messages process max_retries (messages_or_none process max_retries claimed)) _
        (handle_messages-KeepsSound (messages_or_none process max_retries claimed))
        (read-KeepsSound (read_meter_events 10) _
          λ new. handle_messages-KeepsSound (messages_or_none process max_retries new))

-- A whole batch of the ledger worker, of claimed and of new messages, keeps the balances equal to the
-- ledger sums and not negative, whatever the events, the drivers and the pricing say, and wherever
-- the database or Redis fails. What libraries decode and convert to an int64 is taken to fit.
pub worker_batch-IsSound :
    (ops : FloatOps) (codec : Codec) (driver : Normalizer) (cfg : WorkerConfig) (max_retries : ℕ)
    (w : World)
    → IsInt64 ops codec
    → IsSound w.db.tables
    → IsSound (process_batch (process_event ops codec driver cfg) max_retries w).1.db.tables
worker_batch-IsSound ops codec driver cfg max_retries w fits s =
    (process_batch-KeepsSound (process_event ops codec driver cfg) max_retries
        (process_event-KeepsSound ops codec fits driver cfg)).at
      w s
