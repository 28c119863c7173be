-- ===== src/Tests.antt =====
-- The theorems of the library at concrete inputs.
mod Credits
mod Proxy
mod Redis
mod Metering
mod Replay
mod Gateway
mod Vault
mod Handler
mod Served
mod Settled
mod ApiKeys
mod Worker
mod Whole
