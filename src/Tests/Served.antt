-- ===== src/Tests/Served.antt =====
-- A request that is held, sent, answered and metered.
use quarkgate.Gateway.{Request}
use quarkgate.Gateway.Admission.{
  check_solvency, balance_from, cache_hold, create_session, hold_credits, hold_for,
  hold_idempotency_key, known_balance, log_request, open_session, pending_log, record_hold,
  stored_balance,
}
use quarkgate.Gateway.Served.{IsServed, serve_solvent, serve_solvent-Outcome}
use quarkgate.Prelude.{
  false, pos, refl, some, insert, lookup, neg, wrap64, ◌+ℤ◌, ◌-ℤ◌, nat_eq, text_eq, int_eq,
}
use quarkgate.Proxy.Bulkhead.{active_count, new_bulkhead, try_acquire}
use quarkgate.Proxy.Handler.{begin, begin_for, build, check_breaker, check_bulkhead}
use quarkgate.Proxy.Handler.Answer.{serve_answer, serve_whole}
use quarkgate.Proxy.Handler.Counts.{allow_call}
use quarkgate.Redis.{command}
use quarkgate.Redis.Keys.{balance_key, hold_key}
use quarkgate.Redis.Values.{
  get_balance, get_cell, get_int64, get_text, set_balance, set_cell, set_hold, set_text,
}
use quarkgate.Store.{statement, transaction}
use quarkgate.Store.Credits.{apply_hold, insert_transaction, select_balance, update_balance}
use quarkgate.Store.Usage.{create_metering_session, create_usage_log}
use quarkgate.Store.Users.{get_user}
use quarkgate.Tests.Gateway.{key_world, routed_request, format, parse, prepared, run_route}
use quarkgate.Tests.Handler.{clock, exchange, handler_codec, handler_config}
use quarkgate.Tests.Replay.{encode, new_id, show}

abbrev to_send : Request
to_send = record routed_request {
  context = record routed_request.context { downstream = some prepared };
}

serve_solvent-Outcome_example :
    IsServed encode show format parse new_id 900
      (pos 10000000)
      handler_codec
      handler_config
      false
      to_send
      key_world
      (serve_solvent encode show format parse new_id 900
        (pos 10000000)
        handler_codec
        handler_config
        clock
        exchange
        to_send
        key_world).1
unfolding check_solvency known_balance get_balance get_int64 balance_from stored_balance get_user
    get_text command get_cell lookup statement hold_credits hold_for apply_hold transaction
    select_balance update_balance insert_transaction wrap64 ◌-ℤ◌ ◌+ℤ◌ neg record_hold cache_hold
    log_request create_usage_log create_session create_metering_session open_session insert
    hold_idempotency_key pending_log set_balance set_hold set_text set_cell balance_key hold_key
    begin begin_for check_bulkhead try_acquire new_bulkhead active_count check_breaker allow_call
    build serve_answer serve_whole
serve_solvent-Outcome_example =
    serve_solvent-Outcome encode show format parse new_id 900 (pos 10000000) handler_codec
      handler_config clock exchange to_send prepared run_route key_world refl refl refl (λ n. refl)
