-- ===== src/Proxy/State.antt =====
-- What internal/proxy keeps between requests: the counter of active.go, and the bulkhead and the
-- breaker of the handler, where there are any.
use quarkgate.Prelude.{Option, ℤ}
use quarkgate.Proxy.Breaker.{CircuitBreaker}
use quarkgate.Proxy.Bulkhead.{Bulkhead}

pub record ProxyState : Type 0 where
  pub active : ℤ
  pub bulkhead : Option Bulkhead
  pub breaker : Option CircuitBreaker
