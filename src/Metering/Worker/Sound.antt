-- ===== src/Metering/Worker/Sound.antt =====
-- ProcessEvent of internal/metering/worker.go and the invariant of the credit tables.
use quarkgate.Exec.{Result, err, ok, continue, lift, ◌>>=◌, failure}
use quarkgate.Json.{Fields}
use quarkgate.Metering.Normalize.{FloatOps, normalize_with_options}
use quarkgate.Metering.Worker.{
  Codec, Normalizer, WorkerConfig, text_of, to_int64_of, after_settlement, settle_event,
  cache_balance, charge_event, is_partial_event, process_event, normalized_usage_of,
}
use quarkgate.Metering.Worker.Amounts.{
  HasInt64, IsInt64, capture_release-InInt64, normalize-HasInt64, to_int64-InInt64,
}
use quarkgate.Models.{User, Uuid, ProviderConfig}
use quarkgate.Prelude.{InInt64, Text, ℤ, Dict, codes, refl, ◌==◌, ◌||◌, nat_eq, text_eq, int_eq}
use quarkgate.Redis.Keys.{hold_key}
use quarkgate.Redis.Values.{delete_text}
use quarkgate.Store.Balance.{IsSound}
use quarkgate.Store.Balance.Operations.{capture_and_release-IsSound}
use quarkgate.Store.Usage.{delete_metering_session, get_provider_by_slug}
use quarkgate.Store.Users.{get_user}
use quarkgate.World.{World, on_db}
use quarkgate.World.Sound.{
  KeepsSound, KeepsSound-bind, KeepsSound-lift, KeepsSound-on_db, KeepsSound-statement,
  KeepsSound-or_fail, delete_metering_session-IsSound, get_user-IsSound,
}

module _ (ops : FloatOps) (codec : Codec) (fits : IsInt64 ops codec) (driver : Normalizer)
    (cfg : WorkerConfig) where
  cache_balance-KeepsSound :
      (user : Uuid) (r : Result User) → KeepsSound (cache_balance ops codec driver cfg user r)
  unfolding cache_balance
  cache_balance-KeepsSound user (err e) = KeepsSound-lift (ok tt)
  cache_balance-KeepsSound user (ok u) = record { at = λ w s. s }

  after_settlement-KeepsSound :
      (user request : Uuid) → KeepsSound (after_settlement ops codec driver cfg user request)
  unfolding after_settlement
  after_settlement-KeepsSound user request = record {
    at = λ w s.
        let deleted = delete_metering_session request w.db in
        let cleared = delete_text (hold_key (codec.show_uuid request)) w.redis in
        let found = get_user user deleted.1 in
        (cache_balance-KeepsSound user found.0).at (record w { db = found.1; redis = cleared.1 })
          (get_user-IsSound user deleted.1 (delete_metering_session-IsSound request w.db s));
  }

  settle_event-KeepsSound :
      (fields : Dict Text Text) (request user : Uuid) (raw : Fields) (micro : ℤ) (report : Fields)
      → InInt64 micro
      → KeepsSound (settle_event ops codec driver cfg fields request user raw (micro, report))
  unfolding settle_event
  settle_event-KeepsSound fields request user raw micro report fits_micro =
      let hold = to_int64_of ops codec driver cfg (codes "hold_micro") fields in
      let (fc, fr) =
        capture_release-InInt64 hold micro
          (to_int64-InInt64 ops codec fits driver cfg (codes "hold_micro") fields) fits_micro in
      KeepsSound-bind _ _
        (KeepsSound-on_db _
          λ db s. capture_and_release-IsSound codec.show_uuid user request _ _ _ _ db fc fr s)
        λ ids. after_settlement-KeepsSound user request

  charge_event-HasInt64 :
      (fields : Dict Text Text) (raw : Fields) (w : World)
      → HasInt64 ops codec fits (charge_event ops codec driver cfg fields raw w).0
  unfolding charge_event
  charge_event-HasInt64 fields raw w =
      charged (on_db (get_provider_by_slug (text_of (codes "provider") fields)) w)
    where
      priced : ProviderConfig → Result (ℤ × Fields)
      priced p = normalize_with_options ops p.pricing_model raw cfg.credit_usd_micro (record {
        margin = cfg.margin;
        is_partial =
            is_partial_event ops codec driver cfg fields
            || text_of (codes "status") fields == codes "partial";
      })

      charged :
          (r : Result ProviderConfig × World)
          → HasInt64 ops codec fits (continue {B = ℤ × Fields} r.0 (λ p. lift (priced p)) r.1).0
      charged (err e, w) = tt
      charged (ok p, w) = normalize-HasInt64 ops codec fits p.pricing_model raw _ _

  charge_event-KeepsSound :
      (fields : Dict Text Text) (raw : Fields)
      → KeepsSound (charge_event ops codec driver cfg fields raw)
  unfolding charge_event get_provider_by_slug
  charge_event-KeepsSound fields raw =
      KeepsSound-bind _ _ (KeepsSound-statement _ λ t. (refl, refl)) λ p. KeepsSound-lift _

  -- Settling what was charged.
  charged-KeepsSound :
      (fields : Dict Text Text) (request user : Uuid) (raw : Fields)
      → KeepsSound (
          charge_event ops codec driver cfg fields raw
          >>= settle_event ops codec driver cfg fields request user raw)
  charged-KeepsSound fields request user raw = record {
    at = λ w s.
        settled (charge_event ops codec driver cfg fields raw w).0
          (charge_event ops codec driver cfg fields raw w).1 (charge_event-HasInt64 fields raw w)
          ((charge_event-KeepsSound fields raw).at w s);
  }
    where
      settled :
          (r : Result (ℤ × Fields)) (w : World)
          → HasInt64 ops codec fits r
          → IsSound w.db.tables
          → IsSound
              (continue r (settle_event ops codec driver cfg fields request user raw) w).1.db.tables
      settled (err e) w h s = s
      settled (ok (micro, report)) w h s =
          (settle_event-KeepsSound fields request user raw micro report h).at w s

  -- ProcessEvent keeps the balances equal to the ledger sums and not negative, whatever the event, the
  -- driver and the pricing say, and wherever it fails.
  pub process_event-KeepsSound :
      (fields : Dict Text Text) → KeepsSound (process_event ops codec driver cfg fields)
  unfolding process_event
  process_event-KeepsSound fields =
      KeepsSound-bind _ _
        (KeepsSound-or_fail (codec.parse_uuid (text_of (codes "request_id") fields))
          (failure (codes "request id")))
        λ request.
          KeepsSound-bind _ _
            (KeepsSound-or_fail (codec.parse_uuid (text_of (codes "user_id") fields))
              (failure (codes "user id")))
            λ user.
              charged-KeepsSound fields request user
                (normalized_usage_of ops codec driver cfg fields)
