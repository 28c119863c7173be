-- ===== src/LedgerWorker/Messages.antt =====
-- handleMessage, processBatch and replayDLQ of cmd/ledger-worker/main.go. `process` is
-- Worker.ProcessEvent.
pub mod Outcome
pub mod Sound
use quarkgate.Exec.{Exec, Result, attempt, err, ignore, ok, pure, ◌>>=◌, ◌>>◌}
use quarkgate.Prelude.{Dict, List, Text, [], if◌then◌else◌, leb, ℕ, ◌∷◌}
use quarkgate.Redis.{Message, Redis}
use quarkgate.Redis.Stream.{
  ack_meter_event, auto_claim_meter_events, message_deliveries, push_dlq, read_dlq,
  read_meter_events, replay_dlq_entry,
}
use quarkgate.World.{World, on_redis}

module _ (process : Dict Text Text → Exec World (Unit {0})) (max_retries : ℕ) where
  -- What is done with a message whose processing failed.
  unfoldable pub retire : Message → Exec World (Unit {0})
  retire m w =
      let (deliveries, redis) = message_deliveries m.id w.redis in
      let w₁ = record w { redis = redis } in
      if leb max_retries deliveries
      then (ignore (on_redis (push_dlq m.values)) >> ignore (on_redis (ack_meter_event m.id))) w₁
      else (ok tt, w₁)

  abbrev pub after_process : Message → Result (Unit {0}) → Exec World (Unit {0})
  after_process m (ok _) = ignore (on_redis (ack_meter_event m.id))
  after_process m (err _) = retire m

  -- handleMessage
  unfoldable pub handle_message : Message → Exec World (Unit {0})
  handle_message m w = after_process m (process m.values w).0 (process m.values w).1

  unfoldable pub handle_messages : List Message → Exec World (Unit {0})
  handle_messages [] = pure tt
  handle_messages (m ∷ ms) = handle_message m >> handle_messages ms

  -- A list that could not be read is handled as an empty one.
  abbrev pub messages_or_none : Result (List Message) → List Message
  messages_or_none (ok ms) = ms
  messages_or_none (err _) = []

  -- processBatch
  unfoldable pub process_batch : Exec World (Unit {0})
  process_batch = do
    claimed ← attempt (on_redis (auto_claim_meter_events 30 10))
    handle_messages (messages_or_none claimed)
    new ← attempt (on_redis (read_meter_events 10))
    handle_messages (messages_or_none new)

-- replayDLQ: an entry that cannot be emitted is passed over.
unfoldable pub replay_messages : List Message → Exec Redis (Unit {0})
replay_messages [] = pure tt
replay_messages (m ∷ ms) = ignore (replay_dlq_entry m.values) >> replay_messages ms

unfoldable pub replay_dlq : Exec Redis (Unit {0})
replay_dlq = do ms ← read_dlq 100; replay_messages ms
