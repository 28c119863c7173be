-- ===== src/Lib.antt =====
-- QuarkGate: a gateway that meters calls to providers against prepaid credits. A request passes a
-- chain of middlewares, which check its key, limit its rate, find its route, answer a repeated one
-- from a cache, check its scope and hold an estimate of its cost. The proxy sends it to the provider
-- and emits a metering event to a stream in Redis. The ledger worker reads the stream, prices the
-- usage and settles the hold in PostgreSQL. Both sides share the database and Redis, and nothing
-- else.
--
-- Prelude, Exec, Json, Models: numbers, lists, maps and texts; results and errors; decoded JSON;
--   internal/models.
-- Store: internal/store/store.go and internal/db/db.go (Migrate), over the tables of
--   migrations/001_initial.sql. One function for each method of Store, in snake case. A statement may
--   fail anywhere, as a schedule of outages says; a transaction that fails is rolled back. From has the
--   rules for blocks that succeed; Balance has the invariant and Atomic the transactions as a whole.
-- Metering: internal/metering/hold.go, normalize.go and worker.go.
-- Redis: internal/redis/client.go over a server with a clock, expiring values, the windows of the
--   rate limiter, and the metering stream with its pending list and dead-letter queue.
-- World: the two together, with the proxy's counters.
-- LedgerWorker: cmd/ledger-worker/main.go, the handling of messages, one tick of the sweeper and
--   one of the reconciliation; and reconcile-user of cmd/admin/main.go.
-- Registry: internal/registry/registry.go; Invoke has the calls of a driver, over a parameter that
--   runs a process.
-- Keys, Vault, Config: internal/keys and internal/auth; internal/vault, with Vault.Cipher for
--   vault.go; internal/config/config.go.
-- Admin: the commands of cmd/admin/main.go. Base has what they share.
-- Gateway: internal/gateway, each middleware as a gate that refuses or passes a request, or as a
--   handler around the next one. Chain is the order of cmd/gateway/main.go, Serve its other pages and
--   its shutdown, and Served its last middleware with the proxy behind it. Headers is the map of a
--   reply's headers, which a reply here holds as the list of the calls that change it; Metering writes
--   the event that Metering.Worker reads, and Metering.Delivered has the two together.
-- Proxy: internal/proxy/bulkhead.go, breaker.go, active.go, stream_meter.go and handler.go. Handler has
--   ServeHTTP in two halves, `begin` up to the call of the provider and `finish` after it, so that
--   requests interleave; Counts has the counters, Emission the metering events, Answer what the client
--   is sent and Usage what the driver adds.
-- System: all of it, requests, batches, sweeps and deposits in any order, whole or one credit
--   transaction at a time, and the reconciliation cut between the statement that reads a sum and the
--   one that writes it.
-- Tests: the theorems at concrete inputs.
--
-- A call of the program is a function from a state to a result and a new state. A struct is a record,
-- an int64 is an integer with its wrap-around written as wrap64, a float64 is its bit pattern with the
-- arithmetic as a parameter, and a text is the list of its bytes. A UUID is a number, a time a number
-- of seconds. Loops are recursions over the list that is walked, so no fuel is needed; the copy of a
-- stream walks the list of what each read gives. Only the wait of the shutdown has fuel, 301 rounds of
-- at least 100 milliseconds for its 30 seconds.
--
-- Parameters stand for JSON, UUIDs, bcrypt, the HMAC, AES-GCM, float64 and the driver processes.
-- What is taken of them is named: IsInt64 says that a number decoded or converted to an int64 is one.
--
-- Not modelled: HTTP itself, the failure to read a request's body, the connections to the services,
-- metrics and logs, the tickers, the loop of the ledger worker's main, the text of an error that ends
-- an admin command, and the drivers and services in other languages. Of a client that disconnects,
-- what is modelled is that the copy of a stream ends and that the request's metering event is not
-- sent; a call of the database or of Redis that its cancelled context stops is one that fails. The
-- breaker's counts are numbers without a bound. The panic of an addition to a nil map of rates in
-- normalize.go, which ends the worker, is an error here.
pub mod Prelude
pub mod Exec
pub mod Json
pub mod Models
pub mod Metering
pub mod Store
pub mod Redis
pub mod World
pub mod LedgerWorker
pub mod Registry
pub mod Vault
pub mod Keys
pub mod Admin
pub mod Config
pub mod Gateway
pub mod Proxy
pub mod System
pub mod Tests
