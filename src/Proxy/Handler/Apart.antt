-- ===== src/Proxy/Handler/Apart.antt =====
-- ServeHTTP of internal/proxy/handler.go leaves the database alone.
use quarkgate.Gateway.{Reply, Request}
use quarkgate.Gateway.Metering.{emit_event}
use quarkgate.Json.{Fields}
use quarkgate.Models.{DownstreamRequest, RouteMatch}
use quarkgate.Prelude.{Bool, Bool-cases, Option, Text, false, inl, inr, none, refl, some, true, ◌≡◌}
use quarkgate.Proxy.Bulkhead.{try_acquire}
use quarkgate.Proxy.Handler.{
  begin, finish, Outbound, go_on, begin_for, build, check_breaker, check_bulkhead, respond,
  serve_http,
}
use quarkgate.Proxy.Handler.Answer.{HandlerCodec, HandlerConfig, Response}
use quarkgate.Proxy.Handler.Counts.{allow_call, leave, record_call}
use quarkgate.Proxy.Handler.Emission.{Moments, emit_if, fail_downstream, meter_failed}
use quarkgate.World.{World}

module _ (codec : HandlerCodec) (config : HandlerConfig) where
  emit_if-db :
      (metered : Bool) (route : Option RouteMatch) (r : Request) (t : Moments) (status : Text)
      (is_partial : Bool) (usage : Option Fields) (reply : Reply) (w : World)
      → (emit_if codec config metered route r.context t status is_partial usage reply w).1.db ≡ w.db
  unfolding emit_if emit_event
  emit_if-db false route r t status is_partial usage reply w = refl
  emit_if-db true none r t status is_partial usage reply w = refl
  emit_if-db true (some route) r t status is_partial usage reply w = elim (Bool-cases t.gone) [
    | inl left ↦ rw left refl
    | inr stayed ↦ rw stayed refl
  ]

  module _ (r : Request) (t : Moments) where
    meter_failed-db :
        (reply : Reply) (w : World) → (meter_failed codec config r t reply w).1.db ≡ w.db
    unfolding meter_failed
    meter_failed-db reply w = emit_if-db _ _ r t _ _ _ reply w

    fail_downstream-db : (w : World) → (fail_downstream codec config r t w).1.db ≡ w.db
    unfolding fail_downstream
    fail_downstream-db w = meter_failed-db _ w

    finish-db :
        (d : DownstreamRequest) (a : Option Response) (w : World)
        → (finish codec config d r t a w).1.db ≡ w.db
    unfolding finish leave record_call respond
    finish-db d none w = fail_downstream-db _
    finish-db d (some a) w = emit_if-db _ _ r _ _ _ _ _ _

    module _ (exchange : Outbound → World → Option Response) (d : DownstreamRequest) where
      build-db :
          (w : World) → (go_on codec config exchange r t (build codec config d r t w)).1.db ≡ w.db
      unfolding build leave
      build-db w = elim (Bool-cases (codec.can_build d)) [
        | inl built ↦ rw built (finish-db d _ w)
        | inr malformed ↦ rw malformed (fail_downstream-db w)
      ]

      check_breaker-db :
          (w : World)
          → (go_on codec config exchange r t (check_breaker codec config d r t w)).1.db ≡ w.db
      unfolding check_breaker leave
      check_breaker-db w =
          elim (Bool-cases (allow_call codec.exceeds t.allow_at w.proxy.breaker).0) [
            | inl closed ↦ rw closed (build-db _)
            | inr opened ↦ rw opened (meter_failed-db _ _)
          ]

      check_bulkhead-db :
          (w : World)
          → (go_on codec config exchange r t (check_bulkhead codec config d r t w)).1.db ≡ w.db
      unfolding check_bulkhead
      check_bulkhead-db w = elim (Bool-cases (try_acquire d.provider w.proxy.bulkhead).0) [
        | inl free ↦ rw free (check_breaker-db _)
        | inr full ↦ rw full (meter_failed-db _ _)
      ]

    begin_for-db :
        (exchange : Outbound → World → Option Response) (o : Option DownstreamRequest) (w : World)
        → (go_on codec config exchange r t (begin_for codec config o r t w)).1.db ≡ w.db
    unfolding begin_for
    begin_for-db exchange none w = refl
    begin_for-db exchange (some d) w = check_bulkhead-db exchange d w

  pub serve_http-db :
      (clock : Request → World → Moments) (exchange : Outbound → World → Option Response)
      (r : Request) (w : World)
      → (serve_http codec config clock exchange r w).1.db ≡ w.db
  unfolding serve_http begin
  serve_http-db clock exchange r w = begin_for-db r (clock r w) exchange r.context.downstream _
