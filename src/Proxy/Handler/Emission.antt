-- ===== src/Proxy/Handler/Emission.antt =====
-- The metering events of internal/proxy/handler.go, and the answers to requests that fail.
use quarkgate.Gateway.{Context, Reply, Request, set_header}
use quarkgate.Gateway.Metering.{emit_event}
use quarkgate.Json.{Fields}
use quarkgate.Models.{Time, MeteringEvent, RouteMatch}
use quarkgate.Prelude.{
  Bool, Option, Text, [], codes, false, if◌then◌else◌, none, some, true, ℕ, ℤ, ◌++◌, ◌∷◌,
}
use quarkgate.Proxy.Handler.Answer.{HandlerCodec, HandlerConfig}
use quarkgate.World.{World}

-- What the clock shows in the course of a request. `gone`: the request's context is cancelled by the
-- time of its event, since the client has left.
pub record Moments : Type 0 where
  pub gone : Bool
  pub allow_at : Time
  pub duration_ms : ℤ
  pub timestamp : Text

-- A handler that panics; the server drops the connection.
abbrev pub dropped : Reply
dropped = record { status = 0; headers = []; body = [] }

module _ (codec : HandlerCodec) (config : HandlerConfig) where
  -- writeErr, after a Retry-After
  unfoldable pub retry_later : Text → ℕ → Text → Reply
  retry_later seconds code message = record {
    status = code;
    headers =
        set_header (codes "Retry-After") seconds
        ∷ set_header (codes "Content-Type") (codes "application/json")
        ∷ [];
    body = codec.encode_object ((codes "error", message) ∷ []) ++ 10 ∷ [];
  }

  abbrev or_empty : Option Fields → Fields
  or_empty none = Fields.empty
  or_empty (some f) = f

  -- The event of emitMeter
  unfoldable pub meter_event :
      Context → RouteMatch → Moments → Text → Bool → Option Fields → MeteringEvent
  meter_event c route t status is_partial usage = record {
    request_id = codec.show_uuid c.request_id;
    user_id = codec.show_uuid c.user_id;
    key_id = codec.show_uuid c.key_id;
    provider = route.provider;
    operation = route.operation;
    status = status;
    raw_usage = codec.encode_fields (or_empty usage);
    is_partial = is_partial;
    duration_ms = t.duration_ms;
    timestamp = t.timestamp;
    error = [];
    hold_micro = c.hold_micro;
    idempotency_key = c.idempotency_key;
    envelope = elim c.envelope [ none ↦ [] | some e ↦ codec.encode_envelope e ];
  }

  -- By whether there is a Redis client, and the route, whose fields are read. With a context that is
  -- cancelled the command is not sent, and its error is dropped.
  unfoldable pub emit_if :
      Bool
      → Option RouteMatch
      → Context
      → Moments
      → Text
      → Bool
      → Option Fields
      → Reply
      → World
      → Reply × World
  emit_if false route c t status is_partial usage reply w = (reply, w)
  emit_if true none c t status is_partial usage reply w = (dropped, w)
  emit_if true (some route) c t status is_partial usage reply w = (
    reply,
    if t.gone
        then w
        else emit_event codec.format_int64 codec.show_bool
            (meter_event c route t status is_partial usage) w,
  )

  -- emitMeter, with the reply that the request gets
  abbrev pub emit_meter :
      Request → Moments → Text → Bool → Option Fields → Reply → World → Reply × World
  emit_meter r t status is_partial usage reply w =
      emit_if config.has_redis r.context.route r.context t status is_partial usage reply w

  -- A request that fails before it has an answer.
  unfoldable pub meter_failed : Request → Moments → Reply → World → Reply × World
  meter_failed r t reply w = emit_meter r t (codes "failed") false none reply w

  -- fail
  unfoldable pub fail_downstream : Request → Moments → World → Reply × World
  fail_downstream r t w =
      meter_failed r t (retry_later (codes "10") 502 (codes "downstream error")) w
