-- ===== src/Gateway/Idempotency.antt =====
-- IdempotencyMiddleware of internal/gateway/idempotency.go, and RequestIDMiddleware. The JSON of a
-- cached reply is a parameter.
pub mod Replay
use quarkgate.Exec.{Result, ok}
use quarkgate.Gateway.{Context, Handler, Reply, Request, write_json, set_header}
use quarkgate.Gateway.Auth.{cache_key}
use quarkgate.Gateway.Headers.{apply_calls, record_calls}
use quarkgate.Json.{as_bool, get}
use quarkgate.Models.{Uuid}
use quarkgate.Prelude.{
  Bool, Dict, Option, Text, [], codes, false, if◌then◌else◌, leb, ltb, none, not, select, some,
  ◌&&◌, ◌++◌, ◌==◌, ◌||◌, ◌∷◌, map, ℕ, nat_eq, text_eq, int_eq,
}
use quarkgate.Proxy.Bulkhead.Limit.{call}
use quarkgate.Proxy.StreamMeter.{trim_space}
use quarkgate.Redis.Values.{get_idempotency, set_idempotency}
use quarkgate.World.{World}

-- CachedResponse
pub record CachedResponse : Type 0 where
  pub status : ℕ
  pub headers : Dict Text Text
  pub body : Text

module _ (encode : Dict Text Text → Text) (show_uuid : Uuid → Text)
    (encode_reply : CachedResponse → Text) (decode_reply : Text → Option CachedResponse)
    (equal_fold : Text → Text → Bool) (canonical : Text → Text) where
  -- isStreamingRequest
  unfoldable pub is_streaming_request : Context → Bool
  is_streaming_request c =
      elim c.downstream [ none ↦ false | some d ↦ d.streaming ] || elim c.envelope [
        | none ↦ false
        | some e ↦ elim e.payload [
          | none ↦ false
          | some payload_fields ↦ elim (as_bool (get (codes "stream") payload_fields)) [
            | none ↦ false
            | some b ↦ b
          ]
        ]
      ]

  -- idempotencyCacheKey
  unfoldable pub idempotency_cache_key : Uuid → Text → Text → Text
  idempotency_cache_key user key path = show_uuid user ++ codes ":" ++ key ++ codes ":" ++ path

  -- replayCached: every header but `Content-Length`.
  unfoldable pub replay_cached : CachedResponse → Reply
  replay_cached c = record {
    status = c.status;
    headers =
        map (λ (h : Text × Text). set_header h.0 h.1)
          (select (λ (h : Text × Text). not (equal_fold h.0 (codes "Content-Length"))) c.headers);
    body = c.body;
  }

  -- What the idempotencyRecorder holds after the handler.
  unfoldable pub recorded : Request → Reply → CachedResponse
  recorded r reply = record {
    status = reply.status;
    headers = record_calls canonical reply.headers (apply_calls canonical r.written []) [];
    body = reply.body;
  }

  -- getCached: no answer, no value and no JSON are all no hit.
  abbrev pub cached_reply : Result (Option Text) → Option CachedResponse
  cached_reply (ok (some text)) = decode_reply text
  cached_reply _ = none

  unfoldable pub get_cached : Text → World → Option CachedResponse × World
  get_cached key w =
      let (found, redis) = get_idempotency key w.redis in
      (cached_reply found, record w { redis = redis })

  -- The end of Wrap: a reply of 200 to 299 is cached for a day.
  unfoldable pub remember : Text → Request → Reply → World → Reply × World
  remember key r reply w =
      if leb 200 reply.status && ltb reply.status 300
      then (
        reply,
        record w {
          redis = (set_idempotency key (encode_reply (recorded r reply)) 86400 w.redis).1;
        },
      )
      else (reply, w)

  abbrev pub with_idempotency_key : Request → Text → Request
  with_idempotency_key r key = record r { context = record r.context { idempotency_key = key } }

  -- The lookup, and the handler where there is no hit.
  unfoldable pub replay_or :
      Handler → Text → Request → Option CachedResponse × World → Reply × World
  replay_or next key r (some c, w) = (replay_cached c, w)
  replay_or next key r (none, w) = remember key r (next r w).0 (next r w).1

  -- IdempotencyMiddleware.Wrap
  unfoldable pub idempotent : Handler → Handler
  idempotent next r w =
      let key = trim_space r.idempotency_header in
      let r₁ = with_idempotency_key r key in
      let user = r.context.user_id in
      let cache_key = idempotency_cache_key user key r.path in
      if key == []
      then next r₁ w
      else if is_streaming_request r.context
      then (
        write_json encode 409
            ((codes "error", codes "idempotency not supported for streaming requests") ∷ []),
        w,
      )
      else if user == 0
      then next r₁ w
      else replay_or next cache_key r₁ (get_cached cache_key w)

  -- RequestIDMiddleware.Wrap: the id is new, and the trace is the client's, or the id.
  unfoldable pub with_request_id : (World → Uuid) → Handler → Handler
  with_request_id new_uuid next r w =
      let id = new_uuid w in
      let call = set_header (codes "X-Request-Id") (show_uuid id) in
      let trace = if r.trace_header == [] then show_uuid id else r.trace_header in
      let (reply, w₁) =
        next
          (record r {
            written = r.written ++ call ∷ [];
            context = record r.context { request_id = id; trace_id = trace };
          })
          w in
      (record reply { headers = call ∷ reply.headers }, w₁)
