-- ===== src/Proxy.antt =====
-- internal/proxy: the limits around a downstream call, and the metering of a stream.
pub mod Bulkhead
pub mod Breaker
pub mod State
pub mod Handler
pub mod StreamMeter
