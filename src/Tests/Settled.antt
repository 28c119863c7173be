-- ===== src/Tests/Settled.antt =====
-- An event of two input tokens, with a hold of 2000, that is settled for the minimum charge.
use quarkgate.Exec.{ok}
use quarkgate.Gateway.Metering.{event_values}
use quarkgate.Gateway.Metering.Delivered.{IsSettledAs, process_event-event_values, written}
use quarkgate.Json.{Fields, get}
use quarkgate.Metering.Hold.{capture_release}
use quarkgate.Metering.Normalize.{
  add_quantity, charge_at, charge_for, normalize_with_options, passed_cost, raise_to_minimum,
  rates_for, read_quantities, total_charge,
}
use quarkgate.Metering.Worker.{
  Codec, after_settlement, cache_balance, charge_event, normalized_usage_of, process_event,
  raw_usage_of, settle_event, to_int64_of, usage_of,
}
use quarkgate.Metering.Worker.Settled.{IsSettled, process_event-IsSettled}
use quarkgate.Models.{UsageLog, UsageStatus, MeteringEvent}
use quarkgate.Prelude.{
  Dict, Text, [], codes, insert, lookup, none, pos, refl, some, wrap64, ◌+ℤ◌, ◌∷◌, ◌≡◌, neg, ◌-ℤ◌,
  Bool, false, nat_eq, text_eq, int_eq,
}
use quarkgate.Redis.{command}
use quarkgate.Redis.Values.{delete_text, set_text}
use quarkgate.Store.{statement, transaction}
use quarkgate.Store.Credits.{
  capture_and_release, close_usage_log, insert_if_positive, insert_transaction, select_balance,
  settlement_key, update_balance,
}
use quarkgate.Store.Usage.{delete_metering_session, get_provider_by_slug}
use quarkgate.Store.Users.{get_user}
use quarkgate.Tests.Credits.{database}
use quarkgate.Tests.Gateway.{vast}
use quarkgate.Tests.Metering.{toy, codec, no_driver, cfg, two_tokens, pricing}
use quarkgate.Tests.Redis.{world}
use quarkgate.World.{World}

abbrev event_codec : Codec
event_codec = record codec {
  decode_int64 = λ t. some (pos 2000);
  decode_map = λ t. some two_tokens;
}

abbrev event : Dict Text Text
event =
    (codes "request_id", codes "xx")
    ∷ (codes "user_id", codes "x")
    ∷ (codes "provider", codes "vast")
    ∷ (codes "status", codes "completed")
    ∷ (codes "raw_usage", codes "{}")
    ∷ (codes "hold_micro", codes "2000")
    ∷ []

abbrev open_log : UsageLog
open_log = record {
  id = 20;
  user_id = 1;
  key_id = 5;
  provider_slug = codes "vast";
  operation = codes "run";
  request_id = 2;
  status = UsageStatus.pending;
  raw_usage = Fields.empty;
  normalized_usage = Fields.empty;
  credits_reserved = pos 2000;
  credits_captured = pos 0;
  latency_ms = none;
  trace_id = [];
  started_at = 10;
  completed_at = none;
  capture_txn = none;
  release_txn = none;
}

abbrev held_world : World
held_world = record world {
  db = record database {
    tables = record database.tables {
      providers = record vast { pricing_model = some pricing } ∷ [];
      usage_logs = open_log ∷ [];
    };
  };
}

abbrev settled_world : World
settled_world = (process_event toy event_codec no_driver cfg event held_world).1

event_run : process_event toy event_codec no_driver cfg event held_world ≡ (ok tt, settled_world)
unfolding process_event normalized_usage_of charge_event settle_event after_settlement cache_balance
    get_provider_by_slug statement get_user delete_metering_session delete_text set_text command
    capture_release capture_and_release to_int64_of usage_of normalize_with_options charge_for
    charge_at passed_cost rates_for read_quantities add_quantity total_charge raise_to_minimum get
    insert lookup wrap64 ◌+ℤ◌ raw_usage_of transaction select_balance insert_if_positive ◌-ℤ◌
    insert_transaction settlement_key update_balance neg close_usage_log
event_run = refl

process_event-IsSettled_example :
    IsSettled toy event_codec no_driver cfg event held_world settled_world
process_event-IsSettled_example =
    process_event-IsSettled toy event_codec no_driver cfg event held_world event_run

-- The event as the gateway writes it.
abbrev emitted : MeteringEvent
emitted = record {
  request_id = codes "xx";
  user_id = codes "x";
  key_id = codes "5";
  provider = codes "vast";
  operation = codes "run";
  status = codes "completed";
  raw_usage = codes "{}";
  is_partial = false;
  duration_ms = pos 12;
  timestamp = codes "now";
  error = [];
  hold_micro = pos 2000;
  idempotency_key = codes "once";
  envelope = [];
}

abbrev show_zero : Bool → Text
show_zero b = codes "0"

abbrev delivered : World
delivered =
    (process_event toy event_codec no_driver cfg
      (written toy event_codec no_driver cfg show_zero emitted) held_world).1

delivered_run :
    process_event toy event_codec no_driver cfg
      (written toy event_codec no_driver cfg show_zero emitted)
      held_world
    ≡ (ok tt, delivered)
unfolding process_event normalized_usage_of charge_event settle_event after_settlement cache_balance
    get_provider_by_slug statement get_user delete_metering_session delete_text set_text command
    capture_release capture_and_release to_int64_of usage_of normalize_with_options charge_for
    charge_at passed_cost rates_for read_quantities add_quantity total_charge raise_to_minimum get
    insert lookup wrap64 ◌+ℤ◌ raw_usage_of transaction select_balance insert_if_positive ◌-ℤ◌
    insert_transaction settlement_key update_balance neg close_usage_log event_values
delivered_run = refl

process_event-event_values_example :
    IsSettledAs toy event_codec no_driver cfg show_zero emitted held_world delivered
process_event-event_values_example =
    process_event-event_values toy event_codec no_driver cfg show_zero emitted held_world refl
      delivered_run
