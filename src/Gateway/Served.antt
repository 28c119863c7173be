-- ===== src/Gateway/Served.antt =====
-- SolvencyMiddleware of internal/gateway/middleware.go with ServeHTTP of internal/proxy/handler.go
-- behind it: what becomes of a routed request, in the database and in the metering stream.
use quarkgate.Gateway.{Decision, Handler, Reply, Request, decide, pass, refuse, wrap}
use quarkgate.Gateway.Admission.{check_solvency}
use quarkgate.Gateway.Admission.Held.{IsHeld, IsHeldIfPassed, check_solvency-IsHeld}
use quarkgate.Gateway.Admission.Quiet.{LeavesQuiet, check_solvency-LeavesQuiet, with_hold}
use quarkgate.Gateway.Route.{routed}
use quarkgate.Models.{DownstreamRequest, RouteMatch, Time, Uuid}
use quarkgate.Prelude.{Bool, false, ◌∙◌, Dict, Option, Text, refl, some, true, ℤ, ◌≡◌}
use quarkgate.Proxy.Handler.{Outbound, begin, serve_http}
use quarkgate.Proxy.Handler.Answer.{HandlerCodec, HandlerConfig, Response}
use quarkgate.Proxy.Handler.Apart.{serve_http-db}
use quarkgate.Proxy.Handler.Emission.{Moments}
use quarkgate.Proxy.Handler.Metered.{MeteredUnless, client_left, serve_http-IsMeteredOnce}
use quarkgate.Redis.{IsUp}
use quarkgate.Redis.Quiet.{SameStream, SameStream-IsUp}
use quarkgate.World.{World}

module _ (encode : Dict Text Text → Text) (show_uuid : Uuid → Text) (format_int64 : ℤ → Text)
    (parse_int64 : Text → Option ℤ) (new_uuid : World → Uuid) (hold_ttl : Time) (default_hold : ℤ)
    (codec : HandlerCodec) (config : HandlerConfig) where
  -- The two as cmd/gateway/main.go stacks them.
  abbrev pub serve_solvent :
      (Request → World → Moments) → (Outbound → World → Option Response) → Handler
  serve_solvent clock exchange =
      wrap (check_solvency encode show_uuid format_int64 parse_int64 new_uuid hold_ttl default_hold)
        (serve_http codec config clock exchange)

  -- The hold is in the ledger and its session is open; one event was emitted, with the hold, or none
  -- where the client has left.
  pub record IsServed (left : Bool) (r : Request) (w w' : World) : Type 0 where
    pub held :
        IsHeld encode show_uuid format_int64 parse_int64 new_uuid hold_ttl default_hold r.context
          w'.db.tables
    pub metered :
        MeteredUnless codec config left
          (with_hold encode show_uuid format_int64 parse_int64 new_uuid hold_ttl default_hold r)
          w
          w'

  -- Refused by the middleware: the proxy was not reached and nothing was emitted.
  pub record IsRefused (w w₁ : World) (reply : Reply) (after : Reply × World) : Type 0 where
    pub at_gate : after ≡ (reply, w₁)
    pub unmetered : w₁.redis.server.stream ≡ w.redis.server.stream

  -- Whether the client has left by the time of the event of a request that reaches the proxy.
  abbrev pub leaves :
      (Request → World → Moments) → (Outbound → World → Option Response) → Request → World → Bool
  leaves clock exchange r w =
      let r₁ =
        with_hold encode show_uuid format_int64 parse_int64 new_uuid hold_ttl default_hold r in
      client_left codec config exchange r₁ (clock r₁ w) (begin codec config r₁ (clock r₁ w) w)

  abbrev pub Outcome :
      (Request → World → Moments)
      → (Outbound → World → Option Response)
      → Request
      → World
      → Decision × World
      → Reply × World
      → Type 0
  Outcome clock exchange r w (refuse reply, w₁) after = IsRefused w w₁ reply after
  Outcome clock exchange r w (pass r', w₁) after = IsServed (leaves clock exchange r w₁) r w after.1

  -- The middleware leaves the stream as it was.
  MeteredUnless-quiet :
      (left : Bool) (r : Request) (w w₁ w' : World)
      → SameStream w.redis w₁.redis
      → MeteredUnless codec config left r w₁ w'
      → MeteredUnless codec config left r w w'
  MeteredUnless-quiet true r w w₁ w' quiet same = same ∙ quiet.stream
  MeteredUnless-quiet false r w w₁ w' quiet once = record {
    values = once.values;
    appended = rw (← quiet.stream, ← quiet.next_id) once.appended;
    of_request = once.of_request;
    of_user = once.of_user;
    of_hold = once.of_hold;
  }

  decided :
      (clock : Request → World → Moments) (exchange : Outbound → World → Option Response)
      (r : Request) (d : DownstreamRequest) (route : RouteMatch) (w : World)
      → config.has_redis ≡ true
      → r.context.downstream ≡ some d
      → r.context.route ≡ some route
      → IsUp w.redis
      → (gated : Decision × World)
      → IsHeldIfPassed encode show_uuid format_int64 parse_int64 new_uuid hold_ttl default_hold
          r.context gated
      → LeavesQuiet encode show_uuid format_int64 parse_int64 new_uuid hold_ttl default_hold r
          w.redis gated
      → Outcome clock exchange r w gated
          (decide (serve_http codec config clock exchange) gated.0 r gated.1)
  unfolding decide
  decided clock exchange r d route w metered to_send routed up (refuse reply, w₁) held (quiet, _) =
      record { at_gate = refl; unmetered = quiet.stream }
  decided clock exchange r d route w metered to_send routed up (pass r', w₁) held (quiet, same) =
      let r₁ =
        with_hold encode show_uuid format_int64 parse_int64 new_uuid hold_ttl default_hold r in
      let once =
        serve_http-IsMeteredOnce codec config clock exchange r₁ d route w₁ metered to_send routed
          (SameStream-IsUp quiet up) in
      rw same (record {
        held = rw (serve_http-db codec config clock exchange r₁ w₁) held;
        metered = MeteredUnless-quiet _ r₁ w w₁ _ quiet once;
      })

  -- While Redis is configured and up, a request with a route and a downstream request is refused by
  -- SolvencyMiddleware, with no metering event; or it
  -- reaches the proxy, and in the end, however the provider answers, the last row of the ledger is its
  -- hold, of its user and of the whole amount, the last session of the table that the sweeper reads is
  -- its own, with that amount, and one metering event was emitted, which carries the request and the
  -- amount held. There is no event just where the request's context is cancelled by then: the client
  -- has left.
  pub serve_solvent-Outcome :
      (clock : Request → World → Moments) (exchange : Outbound → World → Option Response)
      (r : Request) (d : DownstreamRequest) (route : RouteMatch) (w : World)
      → config.has_redis ≡ true
      → r.context.downstream ≡ some d
      → r.context.route ≡ some route
      → IsUp w.redis
      → Outcome clock exchange r w
          (check_solvency encode show_uuid format_int64 parse_int64 new_uuid hold_ttl default_hold r
            w)
          (serve_solvent clock exchange r w)
  unfolding wrap
  serve_solvent-Outcome clock exchange r d route w metered to_send routed up =
      decided clock exchange r d route w metered to_send routed up _
        (check_solvency-IsHeld encode show_uuid format_int64 parse_int64 new_uuid hold_ttl
          default_hold r w)
        (check_solvency-LeavesQuiet encode show_uuid format_int64 parse_int64 new_uuid hold_ttl
          default_hold r w)
