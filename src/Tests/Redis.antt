-- ===== src/Tests/Redis.antt =====
-- The theorems on Redis and on the ledger worker's messages, at a small server.
use quarkgate.Exec.{Exec, err, fail, failure, ok}
use quarkgate.LedgerWorker.Messages.{handle_message}
use quarkgate.LedgerWorker.Messages.Outcome.{Outcome, handle_message-Outcome}
use quarkgate.LedgerWorker.Reconcile.{reconcile_user}
use quarkgate.LedgerWorker.Reconcile.Balanced.{reconcile_user-balanced}
use quarkgate.Models.{User, Uuid}
use quarkgate.Prelude.{
  Dict, Text, [], codes, false, insert, int_laws, pos, refl, some, true, ◌∷◌, ◌≡◌, arith, lookup, ℤ,
  ◌+ℤ◌, none, nat_eq, text_eq, int_eq,
}
use quarkgate.Proxy.Bulkhead.{new_bulkhead}
use quarkgate.Redis.{Message, Redis, Server, command}
use quarkgate.Redis.Keys.{Kind, bucket_key, key_of-injective}
use quarkgate.Redis.Rate.{allow_rate}
use quarkgate.Redis.Rate.Window.{HasWindow, allow_rate_at_60}
use quarkgate.Redis.Values.{set_text}
use quarkgate.Store.{statement}
use quarkgate.Store.Credits.{
  ledger_balance, reconcile_user_balance, select_balance, set_user_balance_from_ledger,
  update_balance,
}
use quarkgate.Store.Rows.{find_user, sum_amounts}
use quarkgate.Tests.Credits.{database, alice}
use quarkgate.World.{World}

abbrev meter_event : Message
meter_event = record { id = 3; values = insert (codes "status") (codes "completed") [] }

abbrev server : Server
server = record {
  cells = [];
  windows = insert (bucket_key (codes "alice")) (40 ∷ 90 ∷ []) [];
  stream = meter_event ∷ [];
  delivered = 1;
  pending = record { message = meter_event; count = 2; delivered_at = 20 } ∷ [];
  dead = [];
  next_id = 4;
  now = 100;
}

abbrev redis : Redis
redis = record { server = server; outage = λ n. false; commands = 0 }

server-HasWindow : HasWindow (codes "alice") server
unfolding lookup insert bucket_key
server-HasWindow = (omega arith, refl, (omega arith, refl, tt))

allow_rate_at_60_example :
    ((allow_rate (codes "alice") (pos 120) redis).0 ≡ ok true)
    × HasWindow (codes "alice") (allow_rate (codes "alice") (pos 120) redis).1.server
allow_rate_at_60_example =
    allow_rate_at_60 (codes "alice") (pos 120) redis refl server-HasWindow (omega int_laws)

key_of-injective_example : (Kind.balance ≡ Kind.balance) × (codes "a" ≡ codes "a")
key_of-injective_example = key_of-injective Kind.balance Kind.balance (codes "a") (codes "a") refl

abbrev pub world : World
world = record {
  db = database;
  redis = redis;
  proxy = record { active = pos 0; bulkhead = new_bulkhead (pos 2); breaker = none };
}

abbrev refuse_all : Dict Text Text → Exec World (Unit {0})
refuse_all values = fail (failure (codes "no request"))

handle_message-Outcome_example :
    Outcome 2 meter_event
      (err (failure (codes "no request")))
      server
      (handle_message refuse_all 2 meter_event world).1.redis.server
handle_message-Outcome_example = handle_message-Outcome refuse_all 2 meter_event world (λ n. refl)

-- A database whose cached balance is not the sum of the ledger.
abbrev poor_alice : User
poor_alice = record alice { balance = pos 10 }

abbrev drifted : World
drifted = record world {
  db = record database { tables = record database.tables { users = poor_alice ∷ [] } };
}

abbrev no_text : ℤ → Text
no_text a = []

abbrev one_code : Uuid → Text
one_code n = n ∷ []

abbrev fixed_world : World
fixed_world = (reconcile_user one_code no_text 1 drifted).1

fixed_run : reconcile_user one_code no_text 1 drifted ≡ (ok (pos 10, pos 5000), fixed_world)
unfolding reconcile_user reconcile_user_balance ledger_balance select_balance statement
    set_user_balance_from_ledger update_balance set_text command ◌+ℤ◌
fixed_run = refl

abbrev fixed_alice : User
fixed_alice = record alice { balance = pos 5000; updated_at = 20 }

fixed_found : find_user 1 fixed_world.db.tables.users ≡ some fixed_alice
unfolding reconcile_user reconcile_user_balance ledger_balance select_balance statement
    set_user_balance_from_ledger update_balance set_text command ◌+ℤ◌
fixed_found = refl

reconcile_user-balanced_example : pos 5000 ≡ sum_amounts 1 fixed_world.db.tables.ledger
reconcile_user-balanced_example =
    reconcile_user-balanced one_code no_text 1 drifted fixed_alice fixed_run fixed_found
