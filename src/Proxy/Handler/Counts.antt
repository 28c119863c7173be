-- ===== src/Proxy/Handler/Counts.antt =====
-- What ServeHTTP of internal/proxy/handler.go does with the counter, the bulkhead and the breaker.
use quarkgate.Gateway.{Reply}
use quarkgate.Models.{Time}
use quarkgate.Prelude.{Bool, Option, Text, none, some, true}
use quarkgate.Proxy.Breaker.{
  CircuitBreaker, RateExceeds, allow, dec_active, inc_active, record_outcome,
}
use quarkgate.Proxy.Bulkhead.{release}
use quarkgate.Proxy.State.{ProxyState}
use quarkgate.World.{World}

abbrev pub with_proxy : ProxyState → World → World
with_proxy p w = record w { proxy = p }

-- IncActive and DecActive
abbrev pub count_in : World → World
count_in w = with_proxy (record w.proxy { active = inc_active w.proxy.active }) w

abbrev pub count_out : World → World
count_out w = with_proxy (record w.proxy { active = dec_active w.proxy.active }) w

-- The deferred calls, with the bulkhead's place given back.
unfoldable pub leave : Text → Reply × World → Reply × World
leave provider (reply, w) = (
  reply,
  count_out (with_proxy (record w.proxy { bulkhead = release provider w.proxy.bulkhead }) w),
)

-- `h.breaker.Allow` and `h.breaker.Record`, where there is a breaker
unfoldable pub allow_call :
    RateExceeds → Time → Option CircuitBreaker → Bool × Option CircuitBreaker
allow_call exceeds now none = (true, none)
allow_call exceeds now (some cb) = let (allowed, cb') = allow exceeds now cb in (allowed, some cb')

unfoldable pub record_call : Bool → World → World
record_call success w =
    with_proxy
      (record w.proxy {
        breaker = elim w.proxy.breaker [ none ↦ none | some cb ↦ some (record_outcome success cb) ];
      })
      w
