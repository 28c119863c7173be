-- ===== src/Metering.antt =====
-- internal/metering: what a request is charged.
pub mod Hold
pub mod Normalize
pub mod Worker
