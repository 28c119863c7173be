-- ===== src/Tests/Whole.antt =====
-- A balance that is put right, a request that is served, a batch of the ledger worker, the read of a sum, a hold and a deposit.
use quarkgate.Admin.{deposit_credits_command}
use quarkgate.Exec.{ok}
use quarkgate.LedgerWorker.Messages.{process_batch}
use quarkgate.LedgerWorker.Reconcile.{fix_row}
use quarkgate.LedgerWorker.Reconcile.Race.{fix_row-drifts}
use quarkgate.Metering.Worker.{process_event}
use quarkgate.Models.{User}
use quarkgate.Prelude.{codes, int_laws, pos, refl, true, ◌+ℤ◌, ◌≡◌, neg, some, wrap64, ◌-ℤ◌}
use quarkgate.Redis.{command}
use quarkgate.Redis.Values.{set_text}
use quarkgate.Store.{Db, statement, transaction}
use quarkgate.Store.Balance.{IsSound}
use quarkgate.Store.Credits.{
  apply_hold, ledger_balance, insert_transaction, select_balance, set_user_balance_from_ledger,
  update_balance,
}
use quarkgate.Store.Rows.{sum_amounts, find_user}
use quarkgate.System.{Run, Step, Run-IsSound, Setup, serve}
use quarkgate.Tests.ApiKeys.{admin_codec}
use quarkgate.Tests.Credits.{alice, database, tables-IsSound}
use quarkgate.Tests.Gateway.{
  key_codec, route_codec, manifests, format, parse, full_world, full_tables-IsSound,
}
use quarkgate.Tests.Handler.{handler_codec, handler_config, clock, exchange}
use quarkgate.Tests.Metering.{toy, codec, codec-IsInt64, no_driver, cfg}
use quarkgate.Tests.Redis.{world}
use quarkgate.Tests.Replay.{new_id, encode_reply, decode_reply, request, show}
use quarkgate.World.{World, on_db}

abbrev setup : Setup
setup = record {
  keys = key_codec;
  routes = route_codec;
  manifests = manifests;
  format_int64 = format;
  parse_int64 = parse;
  new_uuid = new_id;
  encode_reply = encode_reply;
  decode_reply = decode_reply;
  hold_ttl = 900;
  default_hold = pos 10000000;
  default_fits = (omega int_laws, omega int_laws);
  handler_codec = handler_codec;
  handler_config = handler_config;
  clock = clock;
  exchange = exchange;
  ops = toy;
  event_codec = codec;
  amounts_fit = codec-IsInt64;
  driver = no_driver;
  worker = cfg;
  max_retries = 3;
  show_uuid = show;
  admin = admin_codec;
}

-- The reconciliation has read a stale cached balance, and writes the sum of the ledger.
abbrev fixed : World
fixed = (fix_row show format true 1 (pos 4000) (pos 5000) full_world).1

sum_of_ledger : true ≡ true → pos 5000 ≡ sum_amounts 1 full_world.db.tables.ledger
unfolding ◌+ℤ◌
sum_of_ledger e = refl

abbrev served : World
served = (serve setup request fixed).1

abbrev worked : World
worked = (process_batch (process_event toy codec no_driver cfg) 3 served).1

abbrev swept : World
swept = (on_db (ledger_balance 1) worked).1

abbrev held : World
held = (on_db (apply_hold 1 (pos 100) 77 (codes "hold-77")) swept).1

abbrev deposited : World
deposited = (deposit_credits_command admin_codec (codes "x") (codes "5") held).1

six_steps : Run setup full_world deposited
six_steps =
    Run.next
      (Run.next
        (Run.next
          (Run.next
            (Run.next
              (Run.next Run.here (
                Step.fixes true 1 (pos 4000) (pos 5000) (omega int_laws, omega int_laws)
                  sum_of_ledger refl))
              (Step.serves request (omega int_laws, omega int_laws) refl))
            (Step.works refl))
          (Step.sums 1 refl))
        (Step.holds 1 (pos 100) 77 (codes "hold-77") (omega int_laws, omega int_laws) refl))
      (Step.deposits (codes "x") (codes "5") refl)

Run-IsSound_example : IsSound deposited.db.tables
Run-IsSound_example = Run-IsSound setup full_tables-IsSound six_steps

-- The reconciliation has read a balance of 4000 and the sum of 5000; a hold of 2000 comes between.
abbrev read_db : Db
read_db = record database { statements = 1 }

abbrev held_db : Db
held_db = (apply_hold 1 (pos 2000) 7 (codes "hold-7") read_db).1

abbrev drifted : World
drifted = (fix_row show format true 1 (pos 4000) (pos 5000) (record world { db = held_db })).1

sum_run : ledger_balance 1 world.db ≡ (ok (pos 5000), read_db)
unfolding ledger_balance statement ◌+ℤ◌
sum_run = refl

held_run : apply_hold 1 (pos 2000) 7 (codes "hold-7") read_db ≡ (ok (pos 3000), held_db)
unfolding apply_hold transaction statement select_balance update_balance insert_transaction wrap64
    ◌-ℤ◌ ◌+ℤ◌ neg
held_run = refl

drifted_run :
    fix_row show format true 1 (pos 4000) (pos 5000) (record world { db = held_db })
    ≡ (ok tt, drifted)
unfolding fix_row apply_hold transaction statement select_balance update_balance insert_transaction
    wrap64 ◌-ℤ◌ ◌+ℤ◌ neg set_user_balance_from_ledger set_text command
drifted_run = refl

abbrev drifted_alice : User
drifted_alice = record alice { balance = pos 5000; updated_at = 20 }

drifted_found : find_user 1 drifted.db.tables.users ≡ some drifted_alice
unfolding fix_row apply_hold transaction statement select_balance update_balance insert_transaction
    wrap64 ◌-ℤ◌ ◌+ℤ◌ neg set_user_balance_from_ledger set_text command
drifted_found = refl

fix_row-drifts_example : pos 5000 ≡ sum_amounts 1 drifted.db.tables.ledger +ℤ pos 2000
fix_row-drifts_example =
    fix_row-drifts show format 1 7 (pos 2000) (pos 4000) (pos 5000) (pos 3000) (codes "hold-7")
      world drifted_alice (omega int_laws, omega int_laws) tables-IsSound sum_run refl held_run
      drifted_run drifted_found
