-- ===== src/Metering/Worker.antt =====
-- internal/metering/worker.go: ProcessEvent, which settles a metered request. The values of an
-- event come from the stream, so each is a text, or missing. Reading and writing of UUIDs, numbers
-- and JSON, and the driver of a provider, are parameters.
pub mod Amounts
pub mod Sound
pub mod Kept
pub mod Settled
use quarkgate.Exec.{
  Exec, attempt, err, ignore, ok, pure, ◌>>=◌, ◌>>◌, failure, lift, or_fail, Result,
}
use quarkgate.Json.{Fields, Float64, Value, as_map, as_string, get, put}
use quarkgate.Metering.Hold.{capture_release}
use quarkgate.Metering.Normalize.{FloatOps, normalize_with_options}
use quarkgate.Models.{UsageLog, UsageStatus, Uuid, User}
use quarkgate.Prelude.{
  Bool, Dict, Option, Text, [], codes, if◌then◌else◌, lookup, none, pos, some, ℤ, ◌==◌, ◌||◌,
  nat_eq, text_eq, int_eq,
}
use quarkgate.Proxy.StreamMeter.{payload}
use quarkgate.Redis.Keys.{balance_key, hold_key}
use quarkgate.Redis.Values.{delete_text, set_text}
use quarkgate.Store.Credits.{capture_and_release}
use quarkgate.Store.Usage.{delete_metering_session, get_provider_by_slug}
use quarkgate.Store.Users.{get_user}
use quarkgate.World.{World, on_db, on_redis}

-- What ProcessEvent uses of the libraries and of the registry.
pub record Codec : Type 0 where
  pub parse_uuid : Text → Option Uuid
  pub show_uuid : Uuid → Text
  pub decode_int64 : Text → Option ℤ
  pub format_int64 : ℤ → Text
  pub decode_map : Text → Option Fields
  pub encode_request : Text → Text → Text

pub record Normalizer : Type 0 where
  pub has_capability : Text → Bool
  pub invoke_normalize : Text → Fields → Text → Option Fields

pub record WorkerConfig : Type 0 where
  pub margin : Float64
  pub credit_usd_micro : ℤ

-- `fields[name].(string)`, with the zero value "" where it is missing
abbrev pub text_of : Text → Dict Text Text → Text
text_of name fields = elim (lookup name fields) [ none ↦ [] | some v ↦ v ]

-- A number that could not be decoded is left at 0.
abbrev pub int_or_0 : Option ℤ → ℤ
int_or_0 none = pos 0
int_or_0 (some n) = n

-- `payload["model"]` of the envelope, if it is a text and not empty
unfoldable pub envelope_model : Option Fields → Text
envelope_model envelope =
    elim (as_map (elim envelope [ none ↦ none | some m ↦ get (codes "payload") m ])) [
      | none ↦ []
      | some payload ↦ elim (as_string (get (codes "model") payload)) [
        | none ↦ []
        | some model ↦ model
      ]
    ]

-- "Inject model from envelope when missing"
unfoldable pub inject_model : Text → Fields → Fields
inject_model model raw = if model == [] then raw else elim (get (codes "model") raw) [
  | some _ ↦ raw
  | none ↦ put (codes "model") (Value.str model) raw
]

-- `usageStatus`
unfoldable pub usage_status : Text → Bool → UsageStatus
usage_status status is_partial =
    if status == codes "failed"
    then UsageStatus.failed
    else if status == codes "partial" || is_partial
    then UsageStatus.partial
    else UsageStatus.completed

module _ (ops : FloatOps) (codec : Codec) (driver : Normalizer) (cfg : WorkerConfig) where
  -- toInt64 of a value of the stream
  unfoldable pub to_int64_of : Text → Dict Text Text → ℤ
  to_int64_of name fields = int_or_0 (codec.decode_int64 (text_of name fields))

  -- The envelope's text; without one, the provider and the operation.
  unfoldable pub envelope_of : Dict Text Text → Text
  envelope_of fields =
      let envelope = text_of (codes "envelope") fields in
      if envelope == []
      then codec.encode_request (text_of (codes "provider") fields)
          (text_of (codes "operation") fields)
      else envelope

  -- The usage of the event, with the model of the envelope.
  unfoldable pub raw_usage_of : Dict Text Text → Fields
  raw_usage_of fields =
      let text = text_of (codes "raw_usage") fields in
      let raw : Fields = elim (if text == [] then none else codec.decode_map text) [
        | none ↦ Fields.empty
        | some m ↦ m
      ] in
      let envelope = text_of (codes "envelope") fields in
      if envelope == [] then raw else inject_model (envelope_model (codec.decode_map envelope)) raw

  -- The driver's normalized usage, where the provider has one that answers.
  unfoldable pub normalized_usage_of : Dict Text Text → Fields
  unfolding raw_usage_of envelope_of
  normalized_usage_of fields =
      let provider = text_of (codes "provider") fields in
      let raw = raw_usage_of fields in
      if driver.has_capability provider
      then elim (driver.invoke_normalize provider raw (envelope_of fields)) [
        | none ↦ raw
        | some normalized ↦ normalized
      ]
      else raw

  abbrev pub is_partial_event : Dict Text Text → Bool
  is_partial_event fields = text_of (codes "partial") fields == codes "true"

  -- The row that closes the request; CaptureAndRelease reads only the fields that are set here.
  unfoldable pub usage_of : Dict Text Text → Fields → Fields → UsageLog
  unfolding usage_status to_int64_of
  usage_of fields raw report = record {
    id = 0;
    user_id = 0;
    key_id = 0;
    provider_slug = [];
    operation = [];
    request_id = 0;
    status = usage_status (text_of (codes "status") fields) (is_partial_event fields);
    raw_usage = raw;
    normalized_usage = report;
    credits_reserved = pos 0;
    credits_captured = pos 0;
    latency_ms = some (to_int64_of (codes "duration_ms") fields);
    trace_id = [];
    started_at = 0;
    completed_at = none;
    capture_txn = none;
    release_txn = none;
  }

  -- The balance that Redis keeps, where the user was read.
  unfoldable pub cache_balance : Uuid → Result User → Exec World (Unit {0})
  cache_balance user (err e) = pure tt
  cache_balance user (ok u) =
      ignore
        (on_redis (set_text (balance_key (codec.show_uuid user)) (codec.format_int64 u.balance) 0))

  -- What follows a settlement: the session, the hold and the cached balance. Errors are dropped.
  unfoldable pub after_settlement : Uuid → Uuid → Exec World (Unit {0})
  after_settlement user request = do
    ignore (on_db (delete_metering_session request))
    ignore (on_redis (delete_text (hold_key (codec.show_uuid request))))
    found ← attempt (on_db (get_user user))
    cache_balance user found

  -- The charge, by the pricing of the event's provider.
  unfoldable pub charge_event : Dict Text Text → Fields → Exec World (ℤ × Fields)
  charge_event fields raw = do
    provider ← on_db (get_provider_by_slug (text_of (codes "provider") fields))
    lift (
        normalize_with_options ops provider.pricing_model raw cfg.credit_usd_micro (record {
          margin = cfg.margin;
          is_partial =
              is_partial_event fields || text_of (codes "status") fields == codes "partial";
        }))

  -- The settlement of the event's hold for a charge.
  unfoldable pub settle_event :
      Dict Text Text → Uuid → Uuid → Fields → ℤ × Fields → Exec World (Unit {0})
  settle_event fields request user raw (micro, report) = do
    let (captured, released) = capture_release (to_int64_of (codes "hold_micro") fields) micro
    on_db (
        capture_and_release codec.show_uuid user request captured released
          (usage_of fields raw report) (text_of (codes "idempotency_key") fields))
    after_settlement user request

  -- ProcessEvent
  unfoldable pub process_event : Dict Text Text → Exec World (Unit {0})
  process_event fields = do
    request ←
        or_fail (codec.parse_uuid (text_of (codes "request_id") fields))
          (failure (codes "request id"))
    user ← or_fail (codec.parse_uuid (text_of (codes "user_id") fields)) (failure (codes "user id"))
    let raw = normalized_usage_of fields
    charged ← charge_event fields raw
    settle_event fields request user raw charged
