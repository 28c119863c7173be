-- ===== src/Redis/Stream.antt =====
-- The metering stream of internal/redis/client.go: its consumer group and its dead-letter queue.
use quarkgate.Exec.{Exec, Result, ok}
use quarkgate.Models.{Time}
use quarkgate.Prelude.{
  Bool, Dict, List, Option, Text, [], drop, find, if◌then◌else◌, leb, length, map, nat_beq, none,
  not, select, some, suc, take, zero, ℕ, ◌++◌, ◌+◌, ◌∷◌,
}
use quarkgate.Redis.{Delivery, Message, Redis, command}

-- `XADD meter:stream`; the message's values are what Redis keeps of the fields.
unfoldable pub emit_meter_event : Dict Text Text → Exec Redis (Unit {0})
emit_meter_event values = command λ s. (
  ok tt,
  record s {
    stream = s.stream ++ record { id = s.next_id; values = values } ∷ [];
    next_id = s.next_id + 1;
  },
)

-- CreateConsumerGroup: a group that is there already is no error, so nothing is left to model but
-- that the server answered.
unfoldable pub create_consumer_group : Exec Redis (Unit {0})
create_consumer_group = command λ s. (ok tt, s)

abbrev pub first_delivery : Time → Message → Delivery
first_delivery now m = record { message = m; count = 1; delivered_at = now }

-- ReadMeterEvents: `XREADGROUP … >`, the next messages that were never delivered.
unfoldable pub read_meter_events : ℕ → Exec Redis (List Message)
read_meter_events count = command λ s.
    let new = take count (drop s.delivered s.stream) in
    (
      ok new,
      record s {
        delivered = s.delivered + length new;
        pending = s.pending ++ map (first_delivery s.now) new;
      },
    )

-- Has been idle for `min_idle`
abbrev pub is_stale : Time → Time → Delivery → Bool
is_stale now min_idle d = leb (d.delivered_at + min_idle) now

-- Claims the first `count` stale entries: they are delivered once more.
unfoldable pub claim : Time → Time → ℕ → List Delivery → List Message × List Delivery
claim now min_idle count [] = ([], [])
claim now min_idle zero (d ∷ ds) = ([], d ∷ ds)
claim now min_idle (suc n) (d ∷ ds) =
    let taken = claim now min_idle n ds in
    let passed = claim now min_idle (suc n) ds in
    if is_stale now min_idle d
    then (d.message ∷ taken.0, record d { count = d.count + 1; delivered_at = now } ∷ taken.1)
    else (passed.0, d ∷ passed.1)

-- AutoClaimMeterEvents
unfoldable pub auto_claim_meter_events : Time → ℕ → Exec Redis (List Message)
unfolding claim
auto_claim_meter_events min_idle count = command λ s.
    let (claimed, pending) = claim s.now min_idle count s.pending in
    (ok claimed, record s { pending = pending })

abbrev pub is_of : ℕ → Delivery → Bool
is_of id d = nat_beq d.message.id id

-- AckMeterEvent
unfoldable pub ack_meter_event : ℕ → Exec Redis (Unit {0})
ack_meter_event id =
    command λ s. (ok tt, record s { pending = select (λ d. not (is_of id d)) s.pending })

-- `XPENDING … id id 1`
unfoldable pub pending_count : ℕ → Exec Redis (Option ℕ)
pending_count id =
    command λ s. (ok (elim (find (is_of id) s.pending) [ none ↦ none | some d ↦ some d.count ]), s)

abbrev pub deliveries_or_1 : Result (Option ℕ) → ℕ
deliveries_or_1 (ok (some n)) = n
deliveries_or_1 _ = 1

-- MessageDeliveries: 1 where Redis does not answer, or does not list the message.
unfoldable pub message_deliveries : ℕ → Redis → ℕ × Redis
message_deliveries id r = (deliveries_or_1 (pending_count id r).0, (pending_count id r).1)

-- PushDLQ
unfoldable pub push_dlq : Dict Text Text → Exec Redis (Unit {0})
push_dlq values = command λ s. (
  ok tt,
  record s {
    dead = s.dead ++ record { id = s.next_id; values = values } ∷ [];
    next_id = s.next_id + 1;
  },
)

-- ReadDLQ: from the start of the queue, which nothing is removed from.
unfoldable pub read_dlq : ℕ → Exec Redis (List Message)
read_dlq count = command λ s. (ok (take count s.dead), s)

-- ReplayDLQEntry
unfoldable pub replay_dlq_entry : Dict Text Text → Exec Redis (Unit {0})
replay_dlq_entry values = emit_meter_event values
