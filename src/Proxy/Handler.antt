-- ===== src/Proxy/Handler.antt =====
-- internal/proxy/handler.go: how a request is sent to its provider, answered and metered. The HTTP
-- client is a parameter: what it answers is an argument. ServeHTTP is cut in two at `client.Do`,
-- where other requests run.
pub mod Usage
pub mod Answer
pub mod Counts
pub mod Emission
pub mod Left
pub mod Metered
pub mod Places
pub mod Apart
pub mod Flights
use Answer.{HandlerCodec, HandlerConfig, Response, answer_headers, positive, serve_answer}
use Counts.{with_proxy, count_in, count_out, leave, allow_call, record_call}
use Emission.{Moments, emit_meter, retry_later, meter_failed, fail_downstream}
use Usage.{merge_driver_usage}
use quarkgate.Gateway.{Reply, Request, set_header, Handler}
use quarkgate.Models.{DownstreamRequest, Time}
use quarkgate.Prelude.{
  Dict, Option, Text, [], codes, false, if◌then◌else◌, insert, insert_all, ltb, map, none, some, ℕ,
  ◌++◌, ◌==◌, ◌||◌, ◌∷◌, nat_eq, text_eq, int_eq,
}
use quarkgate.Proxy.Bulkhead.{try_acquire}
use quarkgate.World.{World}

-- `client.Do`: the request, with the time after which it is given up.
pub record Outbound : Type 0 where
  pub method : Text
  pub url : Text
  pub headers : Dict Text Text
  pub body : Text
  pub timeout : Option Time

pub data Begun : Type 0 where
  answered : Reply → Begun
  sent : DownstreamRequest → Outbound → Begun

-- http.Error
abbrev http_error : Text → ℕ → Reply
http_error message code = record {
  status = code;
  headers =
      set_header (codes "Content-Type") (codes "text/plain; charset=utf-8")
      ∷ set_header (codes "X-Content-Type-Options") (codes "nosniff")
      ∷ [];
  body = message ++ 10 ∷ [];
}

module _ (codec : HandlerCodec) (config : HandlerConfig) where
  -- The request that ServeHTTP builds.
  unfoldable pub outbound : DownstreamRequest → Request → Outbound
  outbound d r =
      let headers =
        insert_all [] (map (λ (h : Text × Text). (codec.canonical h.0, h.1)) d.headers) in
      record {
        method = d.method;
        url = d.url;
        headers =
            if d.streaming
            then insert (codes "Accept") (codes "text/event-stream") headers
            else headers;
        body = if d.body == [] then r.body else d.body;
        timeout =
            if d.streaming then positive config.max_stream_sec else positive config.connect_timeout;
      }

  abbrev answer_now : Reply × World → Begun × World
  answer_now (reply, w) = (answered reply, w)

  -- After the breaker.
  unfoldable pub build : DownstreamRequest → Request → Moments → World → Begun × World
  build d r t w =
      if codec.can_build d
      then (sent d (outbound d r), w)
      else answer_now (leave d.provider (fail_downstream codec config r t w))

  -- After the bulkhead.
  unfoldable pub check_breaker : DownstreamRequest → Request → Moments → World → Begun × World
  check_breaker d r t w =
      let (allowed, breaker) = allow_call codec.exceeds t.allow_at w.proxy.breaker in
      let w₁ = with_proxy (record w.proxy { breaker = breaker }) w in
      let built = build d r t w₁ in
      if allowed
      then built
      else answer_now (
          leave d.provider (
            meter_failed codec config r t
              (retry_later codec config (codes "30") 503 (codes "circuit open")) w₁))

  unfoldable pub check_bulkhead : DownstreamRequest → Request → Moments → World → Begun × World
  check_bulkhead d r t w =
      let (free, bulkhead) = try_acquire d.provider w.proxy.bulkhead in
      let w₁ = with_proxy (record w.proxy { bulkhead = bulkhead }) w in
      let checked = check_breaker d r t w₁ in
      let (reply, w₂) =
        meter_failed codec config r t
          (retry_later codec config (codes "5") 503 (codes "bulkhead full")) w₁ in
      if free then checked else (answered reply, count_out w₂)

  unfoldable pub begin_for : Option DownstreamRequest → Request → Moments → World → Begun × World
  begin_for none r t w = (answered (http_error (codes "no downstream") 500), count_out w)
  begin_for (some d) r t w = check_bulkhead d r t w

  -- ServeHTTP up to `client.Do`
  unfoldable pub begin : Request → Moments → World → Begun × World
  begin r t w = begin_for r.context.downstream r t (count_in w)

  -- The end of ServeHTTP once there is an answer.
  unfoldable pub respond : DownstreamRequest → Request → Moments → Response → World → Reply × World
  respond d r t a w =
      let served = serve_answer codec config d r.context a in
      emit_meter codec config r (record t { gone = t.gone || served.cancelled }) served.status
        served.is_partial
        (merge_driver_usage codec config r.context d.provider a.headers served.response_body
          d.streaming served.usage)
        (record {
          status = a.status;
          headers = answer_headers codec config a.headers;
          body = served.written;
        })
        w

  -- ServeHTTP after `client.Do`
  unfoldable pub finish :
      DownstreamRequest → Request → Moments → Option Response → World → Reply × World
  finish d r t none w = leave d.provider (fail_downstream codec config r t (record_call false w))
  finish d r t (some a) w = leave d.provider (respond d r t a (record_call (ltb a.status 500) w))

  abbrev go_on :
      (Outbound → World → Option Response) → Request → Moments → Begun × World → Reply × World
  go_on exchange r t (answered reply, w) = (reply, w)
  go_on exchange r t (sent d out, w) = finish d r t (exchange out w) w

  -- ServeHTTP, where no other request comes between
  unfoldable pub serve_http :
      (Request → World → Moments) → (Outbound → World → Option Response) → Handler
  serve_http clock exchange r w = go_on exchange r (clock r w) (begin r (clock r w) w)
