-- ===== src/Tests/Handler.antt =====
-- The theorems on the proxy's handler, on a request that is sent and answered.

use quarkgate.Exec.{err, failure}
use quarkgate.Gateway.{Request}
use quarkgate.Models.{RouteMatch}
use quarkgate.Prelude.{
  Option, [], arith, codes, false, int_laws, lookup, none, pos, refl, some, true, ◌==◌, ◌∷◌, ◌≡◌,
  nat_eq, text_eq, int_eq,
}
use quarkgate.Proxy.Bulkhead.{active_count, new_bulkhead, try_acquire}
use quarkgate.Proxy.Bulkhead.Running.{CountsOf}
use quarkgate.Proxy.Handler.{
  Outbound, begin, sent, serve_http, begin_for, build, check_breaker, check_bulkhead, outbound,
}
use quarkgate.Proxy.Handler.Answer.{
  HandlerCodec, HandlerConfig, Response, serve_answer, serve_whole,
}
use quarkgate.Proxy.Handler.Counts.{allow_call}
use quarkgate.Proxy.Handler.Emission.{Moments}
use quarkgate.Proxy.Handler.Flights.{Run, Run-counts, Step}
use quarkgate.Proxy.Handler.Metered.{IsMeteredOnce, serve_http-IsMeteredOnce}
use quarkgate.Proxy.StreamMeter.Copy.{ReadEnd}
use quarkgate.Registry.Invoke.{Host}
use quarkgate.Tests.Gateway.{prepared}
use quarkgate.Tests.Redis.{world}
use quarkgate.Tests.Replay.{request}
use quarkgate.World.{World}

abbrev pub no_host : Host
no_host = record {
  marshal = λ input. none;
  exists = λ path. false;
  abs = λ path. none;
  join = λ parts. [];
  run = λ bin args folder input. err (failure []);
  decode_request = λ t. none;
  decode_estimate = λ t. none;
  decode_usage = λ t. none;
  decode_health = λ t. none;
  decode_poll = λ t. none;
}

abbrev pub handler_codec : HandlerCodec
handler_codec = record {
  show_uuid = λ n. n ∷ [];
  format_int64 = λ a. [];
  show_bool = λ b. [];
  encode_object = λ fields. [];
  encode_fields = λ fields. [];
  encode_envelope = λ e. [];
  decode = λ t. none;
  canonical = λ t. t;
  equal_fold = λ a b. a == b;
  error_text = λ e. [];
  exceeds = λ failures calls threshold. false;
  can_build = λ d. true;
}

abbrev pub handler_config : HandlerConfig
handler_config = record {
  connect_timeout = 5;
  idle_sec = pos 30;
  max_stream_sec = 1800;
  has_redis = true;
  host = no_host;
  registry = none;
}

abbrev vast_route : RouteMatch
vast_route = record { provider = codes "vast"; operation = codes "run"; compat = false }

abbrev sent_request : Request
sent_request = record request {
  context = record request.context {
    request_id = 7;
    hold_micro = pos 2000;
    route = some vast_route;
    downstream = some prepared;
  };
}

abbrev moments : Moments
moments = record { gone = false; allow_at = 4; duration_ms = pos 12; timestamp = [] }

abbrev pub clock : Request → World → Moments
clock r w = moments

abbrev answer : Response
answer = record {
  status = 200;
  headers = [];
  events =
      record { cancelled = false; before = 5; line = codes "done"; ending = ReadEnd.eof; after = 5 }
      ∷ [];
  started = 5;
}

abbrev pub exchange : Outbound → World → Option Response
exchange out w = some answer

serve_http-IsMeteredOnce_example :
    IsMeteredOnce handler_codec handler_config sent_request world
      (serve_http handler_codec handler_config clock exchange sent_request world).1
unfolding begin begin_for check_bulkhead try_acquire new_bulkhead active_count lookup check_breaker
    allow_call build serve_answer serve_whole
serve_http-IsMeteredOnce_example =
    serve_http-IsMeteredOnce handler_codec handler_config clock exchange sent_request prepared
      vast_route world refl refl refl (λ n. refl)

-- The request is sent.
abbrev begun_world : World
begun_world = (begin handler_codec handler_config sent_request moments world).1

begun_run :
    begin handler_codec handler_config sent_request moments world
    ≡ (sent prepared (outbound handler_codec handler_config prepared sent_request), begun_world)
unfolding begin begin_for check_bulkhead check_breaker build try_acquire allow_call new_bulkhead
    active_count lookup
begun_run = refl

one_running : Run handler_codec handler_config world begun_world (codes "vast" ∷ [])
one_running = Run.next Run.here (
    Step.sends sent_request moments prepared
      (outbound handler_codec handler_config prepared sent_request) (omega arith) begun_run)

Run-counts_example :
    (begun_world.proxy.active ≡ pos 1)
    × CountsOf begun_world.proxy.bulkhead (codes "vast") (codes "vast" ∷ [])
Run-counts_example =
    Run-counts handler_codec handler_config (pos 2) world begun_world (codes "vast" ∷ [])
      (codes "vast") (omega int_laws, omega int_laws) refl refl one_running
