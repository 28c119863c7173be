-- ===== src/Proxy/Handler/Places.antt =====
-- What ServeHTTP of internal/proxy/handler.go does to the proxy's counts when a request begins and when
-- it ends.
use quarkgate.Gateway.{Reply, Request}
use quarkgate.Gateway.Metering.{emit_event}
use quarkgate.Json.{Fields}
use quarkgate.Models.{DownstreamRequest, RouteMatch}
use quarkgate.Prelude.{
  Bool, Bool-cases, Option, Text, ap, arith, false, inl, inr, none, refl, some, true, ◌∙◌, ◌≡◌, ◌⊎◌,
}
use quarkgate.Proxy.Breaker.{dec_active, inc_active}
use quarkgate.Proxy.Bulkhead.{Bulkhead, release, try_acquire}
use quarkgate.Proxy.Bulkhead.Running.{try_acquire-refuses}
use quarkgate.Proxy.Handler.{
  Begun, begin, finish, answered, sent, begin_for, build, check_breaker, check_bulkhead, respond,
}
use quarkgate.Proxy.Handler.Answer.{HandlerCodec, HandlerConfig, Response}
use quarkgate.Proxy.Handler.Counts.{allow_call, leave, record_call}
use quarkgate.Proxy.Handler.Emission.{Moments, emit_if, fail_downstream, meter_failed}
use quarkgate.Proxy.State.{ProxyState}
use quarkgate.World.{World}

-- What beginning a request does to the proxy's counts: a place is taken for one that is sent, and
-- for one that is answered at once no place, or one that is given back.
abbrev pub BeginsAs : Begun → ProxyState → ProxyState → Type 0
BeginsAs (answered reply) s s' =
    (s'.active ≡ dec_active (inc_active s.active))
    × ((s'.bulkhead ≡ s.bulkhead)
        ⊎ ((p : Text) × (b : Option Bulkhead) × (try_acquire p s.bulkhead ≡ (true, b))
            × (s'.bulkhead ≡ release p b)))
BeginsAs (sent d out) s s' =
    (s'.active ≡ inc_active s.active) × (try_acquire d.provider s.bulkhead ≡ (true, s'.bulkhead))

module _ (codec : HandlerCodec) (config : HandlerConfig) where
  emit_if-proxy :
      (metered : Bool) (route : Option RouteMatch) (r : Request) (t : Moments) (status : Text)
      (is_partial : Bool) (usage : Option Fields) (reply : Reply) (w : World)
      → (emit_if codec config metered route r.context t status is_partial usage reply w).1.proxy
        ≡ w.proxy
  unfolding emit_if emit_event
  emit_if-proxy false route r t status is_partial usage reply w = refl
  emit_if-proxy true none r t status is_partial usage reply w = refl
  emit_if-proxy true (some route) r t status is_partial usage reply w = elim (Bool-cases t.gone) [
    | inl left ↦ rw left refl
    | inr stayed ↦ rw stayed refl
  ]

  -- A request that is left takes its place with it.
  abbrev pub Leaves : Text → ProxyState → ProxyState → Type 0
  Leaves p s s' = (s'.active ≡ dec_active s.active) × (s'.bulkhead ≡ release p s.bulkhead)

  leave-Leaves :
      (p : Text) (a : Reply × World) (s : ProxyState)
      → a.1.proxy.active ≡ s.active
      → a.1.proxy.bulkhead ≡ s.bulkhead
      → Leaves p s (leave p a).1.proxy
  unfolding leave
  leave-Leaves p a s e f = (ap dec_active e, ap (release p) f)

  meter_failed-proxy :
      (r : Request) (t : Moments) (reply : Reply) (w : World)
      → (meter_failed codec config r t reply w).1.proxy ≡ w.proxy
  unfolding meter_failed
  meter_failed-proxy r t reply w = emit_if-proxy _ _ r t _ _ _ reply w

  -- An answer, or none, ends the request.
  pub finish-Leaves :
      (d : DownstreamRequest) (r : Request) (t : Moments) (a : Option Response) (w : World)
      → Leaves d.provider w.proxy (finish codec config d r t a w).1.proxy
  unfolding finish fail_downstream respond record_call
  finish-Leaves d r t none w =
      let kept = meter_failed-proxy r t _ _ in
      leave-Leaves d.provider _ w.proxy (ap (λ s. s.active) kept) (ap (λ s. s.bulkhead) kept)
  finish-Leaves d r t (some a) w =
      let kept = emit_if-proxy _ _ r _ _ _ _ _ _ in
      leave-Leaves d.provider _ w.proxy (ap (λ s. s.active) kept) (ap (λ s. s.bulkhead) kept)

  module _ (d : DownstreamRequest) (r : Request) (t : Moments) (s : ProxyState) where
    -- The place was taken.
    abbrev Holds : ProxyState → Type 0
    Holds s₁ =
        (s₁.active ≡ inc_active s.active)
        × (try_acquire d.provider s.bulkhead ≡ (true, s₁.bulkhead))

    answered_from :
        (a : Reply × World) (s₁ : ProxyState)
        → Holds s₁
        → a.1.proxy ≡ s₁
        → BeginsAs (answered a.0) s (leave d.provider a).1.proxy
    unfolding leave
    answered_from a s₁ h e = (
      ap (λ (s₂ : ProxyState). dec_active s₂.active) e ∙ ap dec_active h.0,
      inr (
        d.provider,
        s₁.bulkhead,
        h.1,
        ap (λ (s₂ : ProxyState). release d.provider s₂.bulkhead) e,
      ),
    )

    build-BeginsAs :
        (w : World)
        → Holds w.proxy
        → BeginsAs (build codec config d r t w).0 s (build codec config d r t w).1.proxy
    unfolding build fail_downstream
    build-BeginsAs w h = elim (Bool-cases (codec.can_build d)) [
      | inl built ↦ rw built h
      | inr malformed ↦ rw malformed (answered_from _ w.proxy h (meter_failed-proxy r t _ w))
    ]

    check_breaker-BeginsAs :
        (w : World)
        → Holds w.proxy
        → BeginsAs
            (check_breaker codec config d r t w).0
            s
            (check_breaker codec config d r t w).1.proxy
    unfolding check_breaker
    check_breaker-BeginsAs w h =
        elim (Bool-cases (allow_call codec.exceeds t.allow_at w.proxy.breaker).0) [
          | inl closed ↦ rw closed (build-BeginsAs _ h)
          | inr opened ↦ rw opened (answered_from _ _ h (meter_failed-proxy r t _ _))
        ]

    check_bulkhead-BeginsAs :
        (w : World)
        → w.proxy.active ≡ inc_active s.active
        → w.proxy.bulkhead ≡ s.bulkhead
        → BeginsAs
            (check_bulkhead codec config d r t w).0
            s
            (check_bulkhead codec config d r t w).1.proxy
    unfolding check_bulkhead
    check_bulkhead-BeginsAs w e f = elim (Bool-cases (try_acquire d.provider w.proxy.bulkhead).0) [
      | inl free ↦ rw free (check_breaker-BeginsAs _ (e, rw (← f) (ground (arith, free))))
      | inr full ↦
          let kept = meter_failed-proxy r t _ _ in
          rw full (
            ap (λ s₁. dec_active s₁.active) kept ∙ ap dec_active e,
            inl (
                ap (λ s₁. s₁.bulkhead) kept
                ∙ try_acquire-refuses d.provider w.proxy.bulkhead full
                ∙ f),
          )
    ]

  begin_for-BeginsAs :
      (o : Option DownstreamRequest) (r : Request) (t : Moments) (s : ProxyState) (w : World)
      → w.proxy.active ≡ inc_active s.active
      → w.proxy.bulkhead ≡ s.bulkhead
      → BeginsAs (begin_for codec config o r t w).0 s (begin_for codec config o r t w).1.proxy
  unfolding begin_for
  begin_for-BeginsAs none r t s w e f = (ap dec_active e, inl f)
  begin_for-BeginsAs (some d) r t s w e f = check_bulkhead-BeginsAs d r t s w e f

  pub begin-BeginsAs :
      (r : Request) (t : Moments) (w : World)
      → BeginsAs (begin codec config r t w).0 w.proxy (begin codec config r t w).1.proxy
  unfolding begin
  begin-BeginsAs r t w = begin_for-BeginsAs r.context.downstream r t w.proxy _ refl refl
