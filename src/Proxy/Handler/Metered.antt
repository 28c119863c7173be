-- ===== src/Proxy/Handler/Metered.antt =====
-- That ServeHTTP of internal/proxy/handler.go meters a request once, on every way through it on which
-- the client stays.
use quarkgate.Gateway.{Reply, Request}
use quarkgate.Gateway.Metering.{event_values, emit_event}
use quarkgate.Gateway.Metering.Read.{event_values-Reads}
use quarkgate.Json.{Fields}
use quarkgate.Metering.Worker.{text_of}
use quarkgate.Models.{DownstreamRequest, RouteMatch}
use quarkgate.Prelude.{
  Bool, Bool-cases, Dict, Option, Text, [], codes, false, inl, inr, none, refl, some, true, ◌++◌,
  ◌∷◌, ◌≡◌, ◌||◌, subst,
}
use quarkgate.Proxy.Bulkhead.{try_acquire}
use quarkgate.Proxy.Handler.{
  begin, finish, go_on, Outbound, begin_for, build, check_breaker, check_bulkhead, respond,
  serve_http, Begun, answered, sent,
}
use quarkgate.Proxy.Handler.Answer.{HandlerCodec, HandlerConfig, Response, serve_answer}
use quarkgate.Proxy.Handler.Counts.{allow_call, leave, record_call}
use quarkgate.Proxy.Handler.Emission.{Moments, emit_if, fail_downstream, meter_event, meter_failed}
use quarkgate.Proxy.Handler.Left.{copy_left, serve_answer-cancelled}
use quarkgate.Redis.{Redis, IsUp, command_up}
use quarkgate.Redis.Stream.{emit_meter_event}
use quarkgate.World.{World}

module _ (codec : HandlerCodec) (config : HandlerConfig) where
  -- Redis has had the command for one event of the request, and no other; or none, where the client
  -- has left.
  abbrev EmitsUnless : Bool → Request → Redis → Redis → Type 0
  EmitsUnless true r s s' = s' ≡ s
  EmitsUnless false r s s' =
      (route : RouteMatch) × (t : Moments) × (status : Text) × (is_partial : Bool) × (usage : Option
        Fields)
      × (s'
          ≡ (emit_meter_event
              (event_values codec.format_int64 codec.show_bool
                (meter_event codec config r.context route t status is_partial usage))
              s).1)

  emit_if-EmitsUnless :
      (metered : Bool) (route : Option RouteMatch) (r : Request) (t : Moments) (status : Text)
      (is_partial : Bool) (usage : Option Fields) (reply : Reply) (w : World)
      → metered ≡ true
      → (found : RouteMatch) × (route ≡ some found)
      → EmitsUnless t.gone r w.redis
          (emit_if codec config metered route r.context t status is_partial usage reply w).1.redis
  unfolding emit_if emit_event meter_event
  emit_if-EmitsUnless false route r t status is_partial usage reply w m f = cc
  emit_if-EmitsUnless true none r t status is_partial usage reply w m f = cc f.1
  emit_if-EmitsUnless true (some route) r t status is_partial usage reply w m f =
      elim (Bool-cases t.gone) [
        | inl left ↦ rw left refl
        | inr stayed ↦ rw stayed (route, t, status, is_partial, usage, refl)
      ]

  -- Whether the client has left, by what the provider answered.
  abbrev left_with : Request → Moments → DownstreamRequest → Option Response → Bool
  left_with r t d none = t.gone
  left_with r t d (some a) = t.gone || copy_left codec config d r a

  -- Whether the context of the request is cancelled when the event is emitted: the client has left by
  -- then, or the copy of the answer ended because it had.
  abbrev pub client_left :
      (Outbound → World → Option Response) → Request → Moments → Begun × World → Bool
  client_left exchange r t (answered reply, w) = t.gone
  client_left exchange r t (sent d out, w) = left_with r t d (exchange out w)

  module _ (metered : config.has_redis ≡ true) (r : Request) (t : Moments)
      (routed : (found : RouteMatch) × (r.context.route ≡ some found)) where
    meter_failed-EmitsUnless :
        (reply : Reply) (w : World)
        → EmitsUnless t.gone r w.redis (meter_failed codec config r t reply w).1.redis
    unfolding meter_failed
    meter_failed-EmitsUnless reply w = emit_if-EmitsUnless _ _ r t _ _ _ reply w metered routed

    fail_downstream-EmitsUnless :
        (w : World) → EmitsUnless t.gone r w.redis (fail_downstream codec config r t w).1.redis
    unfolding fail_downstream
    fail_downstream-EmitsUnless w = meter_failed-EmitsUnless _ w

    finish-EmitsUnless :
        (d : DownstreamRequest) (a : Option Response) (w : World)
        → EmitsUnless (left_with r t d a) r w.redis (finish codec config d r t a w).1.redis
    unfolding finish leave record_call respond
    finish-EmitsUnless d none w = fail_downstream-EmitsUnless _
    finish-EmitsUnless d (some a) w =
        let left = record t {
          gone = t.gone || (serve_answer codec config d r.context a).cancelled;
        } in
        subst
          (λ x. EmitsUnless (t.gone || x) r w.redis (finish codec config d r t (some a) w).1.redis)
          (serve_answer-cancelled codec config d r a)
          (emit_if-EmitsUnless _ _ r left _ _ _ _ _ metered routed)

    module _ (exchange : Outbound → World → Option Response) (d : DownstreamRequest) where
      -- The event of a request that has begun.
      abbrev Goes : World → Begun × World → Type 0
      Goes w b =
          EmitsUnless (client_left exchange r t b) r w.redis
            (go_on codec config exchange r t b).1.redis

      build-Goes : (w : World) → Goes w (build codec config d r t w)
      unfolding build leave
      build-Goes w = elim (Bool-cases (codec.can_build d)) [
        | inl built ↦ rw built (finish-EmitsUnless d _ w)
        | inr malformed ↦ rw malformed (fail_downstream-EmitsUnless w)
      ]

      check_breaker-Goes : (w : World) → Goes w (check_breaker codec config d r t w)
      unfolding check_breaker leave
      check_breaker-Goes w =
          elim (Bool-cases (allow_call codec.exceeds t.allow_at w.proxy.breaker).0) [
            | inl closed ↦ rw closed (build-Goes _)
            | inr opened ↦ rw opened (meter_failed-EmitsUnless _ _)
          ]

      check_bulkhead-Goes : (w : World) → Goes w (check_bulkhead codec config d r t w)
      unfolding check_bulkhead
      check_bulkhead-Goes w = elim (Bool-cases (try_acquire d.provider w.proxy.bulkhead).0) [
        | inl free ↦ rw free (check_breaker-Goes _)
        | inr full ↦ rw full (meter_failed-EmitsUnless _ _)
      ]

    begin_for-Goes :
        (exchange : Outbound → World → Option Response) (o : Option DownstreamRequest)
        {d : DownstreamRequest} (w : World)
        → o ≡ some d
        → Goes exchange d w (begin_for codec config o r t w)
    unfolding begin_for
    begin_for-Goes exchange none w e = cc
    begin_for-Goes exchange (some d) w e = check_bulkhead-Goes exchange d w

  -- The stream has one event more, which carries the request, its user and its hold.
  pub record IsMeteredOnce (r : Request) (w w' : World) : Type 0 where
    pub values : Dict Text Text
    pub appended :
        w'.redis.server.stream
        ≡ w.redis.server.stream ++ record { id = w.redis.server.next_id; values = values } ∷ []
    pub of_request : text_of (codes "request_id") values ≡ codec.show_uuid r.context.request_id
    pub of_user : text_of (codes "user_id") values ≡ codec.show_uuid r.context.user_id
    pub of_hold : text_of (codes "hold_micro") values ≡ codec.format_int64 r.context.hold_micro

  -- The stream has the one event more; or none, where the client has left.
  abbrev pub MeteredUnless : Bool → Request → World → World → Type 0
  MeteredUnless true r w w' = w'.redis.server.stream ≡ w.redis.server.stream
  MeteredUnless false r w w' = IsMeteredOnce r w w'

  EmitsUnless-MeteredUnless :
      (left : Bool) (r : Request) (w w' : World)
      → IsUp w.redis
      → EmitsUnless left r w.redis w'.redis
      → MeteredUnless left r w w'
  unfolding emit_meter_event meter_event
  EmitsUnless-MeteredUnless true r w w' up same = rw same refl
  EmitsUnless-MeteredUnless false r w w' up (route, t, status, is_partial, usage, emitted) =
      let e = meter_event codec config r.context route t status is_partial usage in
      let read = event_values-Reads codec.format_int64 codec.show_bool e in
      record {
        values = event_values codec.format_int64 codec.show_bool e;
        appended = rw (emitted, command_up _ w.redis up) refl;
        of_request = read.request_id;
        of_user = read.user_id;
        of_hold = read.hold_micro;
      }

  module _ (clock : Request → World → Moments) (exchange : Outbound → World → Option Response)
      (r : Request) (d : DownstreamRequest) (route : RouteMatch) (w : World)
      (metered : config.has_redis ≡ true) (to_send : r.context.downstream ≡ some d)
      (routed : r.context.route ≡ some route) where
    -- Whether the client has left by the time of the request's event.
    abbrev left_by_then : Bool
    left_by_then = client_left exchange r (clock r w) (begin codec config r (clock r w) w)

    serve_http-EmitsUnless :
        EmitsUnless left_by_then r w.redis (serve_http codec config clock exchange r w).1.redis
    unfolding serve_http begin begin_for
    serve_http-EmitsUnless =
        begin_for-Goes metered r (clock r w) (route, routed) exchange r.context.downstream _ to_send

  -- While Redis is configured and up, each request with a route and a downstream request is metered
  -- once, with its hold, however it goes: refused by the bulkhead or the breaker, not sent, not
  -- answered, cut or answered. It is not metered
  -- at all just where its context is cancelled at the event: the client has left by then, or the
  -- copy of the stream ended because it had.
  pub serve_http-IsMeteredOnce :
      (clock : Request → World → Moments) (exchange : Outbound → World → Option Response)
      (r : Request) (d : DownstreamRequest) (route : RouteMatch) (w : World)
      → config.has_redis ≡ true
      → r.context.downstream ≡ some d
      → r.context.route ≡ some route
      → IsUp w.redis
      → MeteredUnless
          (client_left exchange r (clock r w) (begin codec config r (clock r w) w))
          r
          w
          (serve_http codec config clock exchange r w).1
  serve_http-IsMeteredOnce clock exchange r d route w metered to_send routed up =
      EmitsUnless-MeteredUnless _ r w _ up
        (serve_http-EmitsUnless clock exchange r d route w metered to_send routed)
