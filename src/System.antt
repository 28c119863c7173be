-- ===== src/System.antt =====
-- The program as a whole: requests through cmd/gateway/main.go, batches and ticks of
-- cmd/ledger-worker/main.go and deposits by cmd/admin/main.go, in any order, on the state that they
-- share. What interleaves in the program are calls of the database that are transactions or single
-- statements. A request, a batch, a sweep or a deposit writes credits in one such call at a time, and
-- these calls are steps of their own beside the whole ones. The reconciliation reads a sum in one
-- statement and writes it in another, so it is cut there.
use quarkgate.Admin.{deposit_credits_command, parse_credits}
use quarkgate.Admin.Base.{AdminCodec, uuid_arg, line}
use quarkgate.Exec.{failure, gets, or_fail, pure}
use quarkgate.Gateway.{Handler, Request}
use quarkgate.Gateway.Auth.{KeyCodec}
use quarkgate.Gateway.Chain.{gateway}
use quarkgate.Gateway.Idempotency.{CachedResponse}
use quarkgate.Gateway.Route.{RouteCodec}
use quarkgate.Gateway.Sound.{KeepsHandler}
use quarkgate.Gateway.Sound.Whole.{gateway-IsSound}
use quarkgate.LedgerWorker.Messages.{process_batch}
use quarkgate.LedgerWorker.Messages.Sound.{worker_batch-IsSound}
use quarkgate.LedgerWorker.Reconcile.{fix_row}
use quarkgate.LedgerWorker.Reconcile.Sound.{fix_row-IsSound, ledger_balance-IsSound}
use quarkgate.LedgerWorker.Sweeper.{sweep_tick}
use quarkgate.LedgerWorker.Sweeper.Sound.{HoldsFit, sweep_tick-IsSound}
use quarkgate.Metering.Normalize.{FloatOps}
use quarkgate.Metering.Worker.{Codec, Normalizer, WorkerConfig, process_event}
use quarkgate.Metering.Worker.Amounts.{IsInt64}
use quarkgate.Models.{Time, UsageLog, Uuid}
use quarkgate.Prelude.{Bool, true, Dict, InInt64, Option, Text, codes, ℕ, ℤ, ◌++◌, ◌≡◌}
use quarkgate.Proxy.Handler.{Outbound, serve_http}
use quarkgate.Proxy.Handler.Answer.{HandlerCodec, HandlerConfig, Response}
use quarkgate.Proxy.Handler.Apart.{serve_http-db}
use quarkgate.Proxy.Handler.Emission.{Moments}
use quarkgate.Registry.{Manifest}
use quarkgate.Store.Balance.{IsSound}
use quarkgate.Store.Balance.Operations.{
  apply_hold-IsSound, capture_and_release-IsSound, deposit_credits-IsSound,
}
use quarkgate.Store.Credits.{apply_hold, capture_and_release, deposit_credits, ledger_balance}
use quarkgate.Store.Rows.{sum_amounts}
use quarkgate.World.{World, on_db}
use quarkgate.World.Sound.{
  IsSound-same, KeepsSound, KeepsSound-bind, KeepsSound-on_db, KeepsSound-or_fail,
}

-- What the program is given: its configuration, and the libraries and services that it calls.
pub record Setup : Type 0 where
  pub keys : KeyCodec
  pub routes : RouteCodec
  pub manifests : Dict Text Manifest
  pub format_int64 : ℤ → Text
  pub parse_int64 : Text → Option ℤ
  pub new_uuid : World → Uuid
  pub encode_reply : CachedResponse → Text
  pub decode_reply : Text → Option CachedResponse
  pub hold_ttl : Time
  pub default_hold : ℤ
  pub default_fits : InInt64 default_hold
  pub handler_codec : HandlerCodec
  pub handler_config : HandlerConfig
  pub clock : Request → World → Moments
  pub exchange : Outbound → World → Option Response
  pub ops : FloatOps
  pub event_codec : Codec
  pub amounts_fit : IsInt64 ops event_codec
  pub driver : Normalizer
  pub worker : WorkerConfig
  pub max_retries : ℕ
  pub show_uuid : Uuid → Text
  pub admin : AdminCodec

module _ (s : Setup) where
  -- The gateway, with the proxy as its last handler
  abbrev pub serve : Handler
  serve =
      gateway s.keys s.routes s.manifests s.format_int64 s.parse_int64 s.new_uuid s.encode_reply
        s.decode_reply s.hold_ttl s.default_hold
        (serve_http s.handler_codec s.handler_config s.clock s.exchange)

  -- One request, batch, sweep or command, or one of their calls of the database that write credits. The
  -- amounts, and the holds of a request and of a session, are int64s, as their types in the source and
  -- in the tables say. `fixes` is the rest of the reconciliation's loop for one user once it has read
  -- the sum `total`, at whatever time: where it writes, no hold, settlement or deposit of the user has
  -- come between. What else happens touches no balance and no ledger row.
  pub data Step : World → World → Type 0 where
    serves :
        {w w' : World} (r : Request) → InInt64 r.context.hold_micro → w' ≡ (serve r w).1 → Step w w'
    works :
        {w w' : World}
        → w'
          ≡ (process_batch (process_event s.ops s.event_codec s.driver s.worker) s.max_retries w).1
        → Step w w'
    sweeps : {w w' : World} → HoldsFit w.db.tables → w' ≡ (sweep_tick s.show_uuid w).1 → Step w w'
    holds :
        {w w' : World} (user : Uuid) (amount : ℤ) (request : Uuid) (key : Text)
        → InInt64 amount
        → w' ≡ (on_db (apply_hold user amount request key) w).1
        → Step w w'
    settles :
        {w w' : World} (user request : Uuid) (captured released : ℤ) (usage : UsageLog)
        (client_key : Text)
        → InInt64 captured
        → InInt64 released
        → w'
          ≡ (on_db
              (capture_and_release s.show_uuid user request captured released usage client_key)
              w).1
        → Step w w'
    sums : {w w' : World} (user : Uuid) → w' ≡ (on_db (ledger_balance user) w).1 → Step w w'
    fixes :
        {w w' : World} (auto_fix : Bool) (user : Uuid) (cached total : ℤ)
        → InInt64 total
        → (auto_fix ≡ true → total ≡ sum_amounts user w.db.tables.ledger)
        → w' ≡ (fix_row s.show_uuid s.format_int64 auto_fix user cached total w).1
        → Step w w'
    deposits :
        {w w' : World} (user amount : Text)
        → w' ≡ (deposit_credits_command s.admin user amount w).1
        → Step w w'
    elsewhere :
        {w w' : World}
        → w'.db.tables.users ≡ w.db.tables.users
        → w'.db.tables.ledger ≡ w.db.tables.ledger
        → Step w w'

  pub data Run (start : World) : World → Type 0 where
    here : Run start start
    next : {w w' : World} → Run start w → Step w w' → Run start w'

  serve_http-KeepsHandler :
      KeepsHandler (serve_http s.handler_codec s.handler_config s.clock s.exchange)
  serve_http-KeepsHandler = record {
    at = λ r w h sound.
        rw (serve_http-db s.handler_codec s.handler_config s.clock s.exchange r w) sound;
  }

  deposit_credits_command-KeepsSound :
      (user amount : Text) → KeepsSound (deposit_credits_command s.admin user amount)
  unfolding deposit_credits_command
  deposit_credits_command-KeepsSound user amount =
      KeepsSound-bind (uuid_arg s.admin user) _ (KeepsSound-or_fail _ _) λ id.
        KeepsSound-bind (or_fail (parse_credits s.admin amount) (failure (codes "credits"))) _
          (KeepsSound-or_fail _ _)
          λ credits.
            KeepsSound-bind (gets (λ w. codes "deposit-" ++ s.admin.nanos w)) _
              (record { at = λ w k. k })
              λ key.
                KeepsSound-bind (on_db (deposit_credits id credits key))
                  (λ b. pure (line (codes "balance_micro=" ++ s.admin.format_int64 b)))
                  (KeepsSound-on_db _ (λ db k. deposit_credits-IsSound id credits key db k))
                  λ b. record { at = λ w k. k }

  Step-IsSound : {w w' : World} → Step w w' → IsSound w.db.tables → IsSound w'.db.tables
  Step-IsSound {w} (serves r fits ran) k = rw ran (
      gateway-IsSound s.keys s.routes s.manifests s.format_int64 s.parse_int64 s.new_uuid
        s.encode_reply s.decode_reply s.hold_ttl s.default_hold _ r w s.default_fits
        serve_http-KeepsHandler fits k)
  Step-IsSound {w} (works ran) k =
      rw ran
        (worker_batch-IsSound s.ops s.event_codec s.driver s.worker s.max_retries w s.amounts_fit k)
  Step-IsSound {w} (sweeps fit ran) k = rw ran (sweep_tick-IsSound s.show_uuid w k fit)
  Step-IsSound {w} (holds user amount request key fits ran) k =
      rw ran (apply_hold-IsSound user amount request key w.db fits k)
  Step-IsSound {w} (settles user request captured released usage client_key fc fr ran) k = rw ran (
      capture_and_release-IsSound s.show_uuid user request captured released usage client_key w.db
        fc fr k)
  Step-IsSound {w} (sums user ran) k = rw ran (ledger_balance-IsSound user w.db k)
  Step-IsSound {w} (fixes auto_fix user cached total fits current ran) k =
      rw ran
        (fix_row-IsSound s.show_uuid s.format_int64 auto_fix user cached total w fits current k)
  Step-IsSound {w} (deposits user amount ran) k =
      rw ran ((deposit_credits_command-KeepsSound user amount).at w k)
  Step-IsSound {w} {w'} (elsewhere users ledger) k =
      IsSound-same w.db.tables w'.db.tables users ledger k

  -- Whatever requests, batches, sweeps and deposits the program runs, whole or one credit transaction
  -- at a time, in any order and however each of them ends: from balances that are the sums of the
  -- ledger and not negative, they are so after. Reconciliations may come between, on condition that
  -- one which writes a sum with auto-fix writes the sum that the ledger still has. Amounts, the holds of
  -- requests and sessions, and the numbers that libraries decode, are taken as int64s.
  pub Run-IsSound : {start w : World} → IsSound start.db.tables → Run start w → IsSound w.db.tables
  Run-IsSound k here = k
  Run-IsSound k (next run step) = Step-IsSound step (Run-IsSound k run)
