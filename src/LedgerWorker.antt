-- ===== src/LedgerWorker.antt =====
-- cmd/ledger-worker/main.go: batches of metering events, the replay of the dead-letter queue, the
-- sweeper of expired holds and the reconciliation of balances.
pub mod Messages
pub mod Sweeper
pub mod Reconcile
