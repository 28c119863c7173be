-- ===== src/Proxy/Handler/Answer.antt =====
-- internal/proxy/handler.go: what becomes of a provider's answer.
use mathlib.Core.Option
use quarkgate.Gateway.{Context, HeaderCall, add_header, set_header}
use quarkgate.Gateway.Headers.{HeaderMap}
use quarkgate.Json.{Fields, Value}
use quarkgate.Models.{DownstreamRequest, Envelope, Time, Uuid}
use quarkgate.Prelude.{
  Bool, Dict, List, Option, Text, [], codes, false, if◌then◌else◌, leb, ltb, map, none, not, some,
  true, ℕ, ℤ, ◌&&◌, ◌++◌, ◌||◌, ◌∷◌,
}
use quarkgate.Proxy.Breaker.{RateExceeds}
use quarkgate.Proxy.StreamMeter.{Decode, MeteringReader, new_metering_reader, parse_json_usage}
use quarkgate.Proxy.StreamMeter.Copy.{CopyResult, Event, ReadEnd, context_done, copy, finished}
use quarkgate.Registry.Invoke.{Host, Registry}

-- What the handler uses of the libraries. `error_text` is the text of an error of the copy,
-- `can_build` whether http.NewRequest takes the method and the URL.
pub record HandlerCodec : Type 0 where
  pub show_uuid : Uuid → Text
  pub format_int64 : ℤ → Text
  pub show_bool : Bool → Text
  pub encode_object : Dict Text Text → Text
  pub encode_fields : Fields → Text
  pub encode_envelope : Envelope → Text
  pub decode : Decode
  pub canonical : Text → Text
  pub equal_fold : Text → Text → Bool
  pub error_text : CopyResult → Text
  pub exceeds : RateExceeds
  pub can_build : DownstreamRequest → Bool

-- NewHandler. A time of 0 is no limit.
pub record HandlerConfig : Type 0 where
  pub connect_timeout : Time
  pub idle_sec : ℤ
  pub max_stream_sec : Time
  pub has_redis : Bool
  pub host : Host
  pub registry : Option Registry

-- `resp`: its body is the list of what each read of it gives; `started` is when the copy begins.
pub record Response : Type 0 where
  pub status : ℕ
  pub headers : HeaderMap
  pub events : List Event
  pub started : Time

-- What the answer comes to: the status of the event, what the client was sent, what the driver is
-- shown, the usage, and whether the copy saw that the request's context is cancelled.
pub record Served : Type 0 where
  pub status : Text
  pub is_partial : Bool
  pub written : Text
  pub response_body : Text
  pub usage : Option Fields
  pub cancelled : Bool

abbrev pub positive : Time → Option Time
positive t = if ltb 0 t then some t else none

-- io.ReadAll of the body; `none` is its error.
unfoldable pub read_all : List Event → Option Text
read_all [] = none
read_all (e ∷ events) = elim e.ending [
  | ReadEnd.more ↦ Option.map (λ rest. e.line ++ rest) (read_all events)
  | ReadEnd.eof ↦ some e.line
  | ReadEnd.broken ↦ none
]

module _ (codec : HandlerCodec) (config : HandlerConfig) where
  -- copyHeaders, and the header that follows it
  abbrev is_copied : Text → Bool
  is_copied name = not (
      codec.equal_fold name (codes "Connection")
      || codec.equal_fold name (codes "Transfer-Encoding"))

  abbrev add_values : Text → List Text → List HeaderCall
  add_values k vs = map (add_header k) vs

  unfoldable pub copy_headers : HeaderMap → List HeaderCall
  copy_headers [] = []
  copy_headers ((k, vs) ∷ h) =
      let rest = copy_headers h in if is_copied k then add_values k vs ++ rest else rest

  unfoldable pub answer_headers : HeaderMap → List HeaderCall
  unfolding copy_headers
  answer_headers h = copy_headers h ++ set_header (codes "X-Accel-Buffering") (codes "no") ∷ []

  -- writeSSEError
  unfoldable pub sse_error : Text → Text
  sse_error message =
      codes "data: " ++ codec.encode_object ((codes "error", message) ∷ []) ++ 10 ∷ 10 ∷ []

  abbrev usage_or : Fields → Option Fields → Option Fields
  usage_or default none = some default
  usage_or default (some usage) = some usage

  -- `ctx.Done()` in the copy's select
  abbrev saw_cancelled : CopyResult → Bool
  saw_cancelled context_done = true
  saw_cancelled e = false

  -- By how the copy ended.
  unfoldable pub served_stream : CopyResult → MeteringReader → Served
  served_stream finished m = record {
    status = codes "completed";
    is_partial = false;
    written = m.written;
    response_body = m.body;
    usage = m.usage;
    cancelled = false;
  }
  served_stream e m = record {
    status = codes "partial";
    is_partial = true;
    written = m.written ++ sse_error (codec.error_text e);
    response_body = m.body;
    usage =
        usage_or (Fields.field (codes "error") (Value.str (codec.error_text e)) Fields.empty)
          m.usage;
    cancelled = saw_cancelled e;
  }

  unfoldable pub cut_stream : CopyResult → MeteringReader → Served
  cut_stream ended m = record {
    status = codes "partial";
    is_partial = true;
    written = m.written ++ sse_error (codes "insufficient_credits");
    response_body = m.body;
    usage = usage_or (Fields.field (codes "soft_cap") (Value.bool true) Fields.empty) m.usage;
    cancelled = saw_cancelled ended;
  }

  -- A stream, copied as it comes.
  unfoldable pub serve_stream : Context → Response → Served
  serve_stream c a =
      let (total, ended, m) =
        copy codec.decode a.started a.events
          (new_metering_reader config.idle_sec config.max_stream_sec c.hold_micro) in
      if m.soft_cap_exceeded then cut_stream ended m else served_stream ended m

  -- Any other answer, read whole.
  abbrev whole_status : ℕ → Option Text → Text
  whole_status code none = codes "failed"
  whole_status code (some body) = if leb 400 code then codes "failed" else codes "completed"

  unfoldable pub serve_whole : Response → Served
  serve_whole a =
      let body = read_all a.events in
      let text : Text = elim body [ none ↦ [] | some t ↦ t ] in
      record {
        status = whole_status a.status body;
        is_partial = false;
        written = text;
        response_body = text;
        usage = elim body [ none ↦ none | some t ↦ parse_json_usage (codec.decode t) ];
        cancelled = false;
      }

  -- The two branches after WriteHeader.
  unfoldable pub serve_answer : DownstreamRequest → Context → Response → Served
  serve_answer d c a =
      if d.streaming && leb 200 a.status && ltb a.status 300
      then serve_stream c a
      else serve_whole a
