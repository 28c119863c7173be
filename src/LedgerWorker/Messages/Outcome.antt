-- ===== src/LedgerWorker/Messages/Outcome.antt =====
-- What becomes of a metering event in handleMessage of cmd/ledger-worker/main.go: it stays pending,
-- or it leaves the pending list.
use quarkgate.Exec.{Exec, ok, Error, Result, err}
use quarkgate.LedgerWorker.Messages.{handle_message, retire, after_process}
use quarkgate.Prelude.{
  Dict, Text, [], not, select, ℕ, ◌++◌, ◌<◌, ◌∷◌, ◌≡◌, ◌≤◌, ◌⊎◌, Bool-cases, List, arith, find, inl,
  inr, leb, leb→le, none, refl, some, ◌+◌,
}
use quarkgate.Redis.{Message, Redis, Delivery, Server, IsUp, command_up}
use quarkgate.Redis.Stream.{
  ack_meter_event, deliveries_or_1, is_of, message_deliveries, pending_count, push_dlq,
}
use quarkgate.World.{World}

-- The pending list without a message.
abbrev pub without : ℕ → List Delivery → List Delivery
without id = select (λ d. not (is_of id d))

-- How many deliveries of a message the group has counted.
abbrev pub deliveries : ℕ → Server → ℕ
deliveries id s =
    deliveries_or_1 (ok (elim (find (is_of id) s.pending) [ none ↦ none | some d ↦ some d.count ]))

-- What handleMessage does after the processing, to the pending list and the dead-letter queue of the
-- server: the message is acknowledged, kept, or moved.
abbrev pub Outcome : ℕ → Message → Result (Unit {0}) → Server → Server → Type 0
Outcome max_retries m (ok _) s s' = (s'.pending ≡ without m.id s.pending) × (s'.dead ≡ s.dead)
Outcome max_retries m (err _) s s' =
    ((deliveries m.id s < max_retries) × (s'.pending ≡ s.pending) × (s'.dead ≡ s.dead))
    ⊎ ((max_retries ≤ deliveries m.id s)
        × (s'.pending ≡ without m.id s.pending)
        × (s'.dead ≡ s.dead ++ record { id = s.next_id; values = m.values } ∷ []))

abbrev counted : Redis → Redis
counted r = record r { commands = r.commands + 1 }

abbrev pushed : Dict Text Text → Redis → Redis
pushed values r = record r {
  server = record r.server {
    dead = r.server.dead ++ record { id = r.server.next_id; values = values } ∷ [];
    next_id = r.server.next_id + 1;
  };
  commands = r.commands + 1;
}

push_dlq_up :
    (values : Dict Text Text) (r : Redis) → IsUp r → push_dlq values r ≡ (ok tt, pushed values r)
unfolding push_dlq
push_dlq_up values r up = command_up _ r up

abbrev acked : ℕ → Redis → Redis
acked id r = record r {
  server = record r.server { pending = without id r.server.pending };
  commands = r.commands + 1;
}

ack_meter_event_up : (id : ℕ) (r : Redis) → IsUp r → ack_meter_event id r ≡ (ok tt, acked id r)
unfolding ack_meter_event
ack_meter_event_up id r up = command_up _ r up

message_deliveries_up :
    (id : ℕ) (r : Redis) → IsUp r → message_deliveries id r ≡ (deliveries id r.server, counted r)
unfolding message_deliveries pending_count
message_deliveries_up id r up = rw (command_up _ r up) refl

module _ (process : Dict Text Text → Exec World (Unit {0})) (max_retries : ℕ) (m : Message) where
  retire-Outcome :
      (e : Error) (w : World)
      → IsUp w.redis
      → Outcome max_retries m (err e) w.redis.server (retire process max_retries m w).1.redis.server
  unfolding retire
  retire-Outcome e w up =
      rw (message_deliveries_up m.id w.redis up)
        (elim (Bool-cases (leb max_retries (deliveries m.id w.redis.server))) [
          | inl spent ↦
              rw
                (
                  spent,
                  push_dlq_up m.values (counted w.redis) up,
                  ack_meter_event_up m.id (pushed m.values (counted w.redis)) up,
                )
                (inr (leb→le _ _ spent, refl, refl))
          | inr left ↦ rw left (inl (ground arith, refl, refl))
        ])

  after_process-Outcome :
      (r : Result (Unit {0})) (w : World)
      → IsUp w.redis
      → Outcome max_retries m r w.redis.server
          (after_process process max_retries m r w).1.redis.server
  after_process-Outcome (ok _) w up = rw (ack_meter_event_up m.id w.redis up) (refl, refl)
  after_process-Outcome (err e) w up = retire-Outcome e w up

  -- Where Redis answers: a message that was processed leaves the pending list. One that failed stays
  -- on it, until the group has counted `max_retries` deliveries; then it leaves it, and its values
  -- go to the end of the dead-letter queue. Nothing else of the two changes.
  pub handle_message-Outcome :
      (w : World)
      → IsUp (process m.values w).1.redis
      → Outcome max_retries m
          (process m.values w).0
          (process m.values w).1.redis.server
          (handle_message process max_retries m w).1.redis.server
  unfolding handle_message
  handle_message-Outcome w up =
      after_process-Outcome (process m.values w).0 (process m.values w).1 up
