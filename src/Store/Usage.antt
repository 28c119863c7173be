-- ===== src/Store/Usage.antt =====
-- The operations of internal/store/store.go on providers, usage logs and metering sessions.
pub mod Created
pub mod Summary
use quarkgate.Exec.{Exec, err, foreign_key_violation, no_rows, ok, out_of_range, unique_violation}
use quarkgate.Json.{Fields}
use quarkgate.Models.{MeteringSession, ProviderConfig, QuarkGateKey, Time, UsageLog, Uuid}
use quarkgate.Prelude.{
  Bool, List, Text, [], any, find, if◌then◌else◌, in_int64, is_some, ltb, map, none, not, pos,
  select, some, take, true, ℕ, ℤ, ◌&&◌, ◌++◌, ◌+ℤ◌, ◌+◌, ◌==◌, ◌∷◌, nat_eq, text_eq, int_eq,
}
use quarkgate.Proxy.Bulkhead.Running.{count}
use quarkgate.Store.{Db, statement}
use quarkgate.Store.Rows.{find_user}

-- ListProviderConfigs
unfoldable pub list_provider_configs : Exec Db (List ProviderConfig)
list_provider_configs =
    statement λ t. (ok (select (λ (p : ProviderConfig). p.enabled) t.providers), t)

-- GetProviderBySlug
unfoldable pub get_provider_by_slug : Text → Exec Db ProviderConfig
get_provider_by_slug slug = statement λ t. (
  elim (find (λ (p : ProviderConfig). (p.provider_slug == slug) && p.enabled) t.providers) [
    | none ↦ err no_rows
    | some p ↦ ok p
  ],
  t,
)

-- CreateUsageLog: the request id is unique, and the user and the key exist. Only the columns that
-- the statement names are written; the others have their defaults.
unfoldable pub create_usage_log : UsageLog → Exec Db (Unit {0})
create_usage_log log = statement λ t.
    if any (λ (l : UsageLog). l.request_id == log.request_id) t.usage_logs
    then (err unique_violation, t)
    else if is_some (find_user log.user_id t.users)
        && any (λ (k : QuarkGateKey). k.id == log.key_id) t.keys
    then (
      ok tt,
      record t {
        usage_logs =
            t.usage_logs
            ++ record log {
              raw_usage = Fields.empty;
              normalized_usage = Fields.empty;
              credits_captured = pos 0;
              latency_ms = none;
              completed_at = none;
              capture_txn = none;
              release_txn = none;
            }
              ∷ [];
      },
    )
    else (err foreign_key_violation, t)

-- CreateMeteringSession: one session a request, and the user exists.
unfoldable pub create_metering_session : Uuid → Uuid → ℤ → Time → Exec Db (Unit {0})
create_metering_session request user hold_micro expires = statement λ t.
    if any (λ (s : MeteringSession). s.request_id == request) t.sessions
    then (err unique_violation, t)
    else if is_some (find_user user t.users)
    then (
      ok tt,
      record t {
        sessions =
            t.sessions
            ++ record {
              request_id = request;
              user_id = user;
              hold = hold_micro;
              expires_at = expires;
            }
              ∷ [];
      },
    )
    else (err foreign_key_violation, t)

-- DeleteMeteringSession
unfoldable pub delete_metering_session : Uuid → Exec Db (Unit {0})
delete_metering_session request = statement λ t. (
  ok tt,
  record t {
    sessions = select (λ (s : MeteringSession). not (s.request_id == request)) t.sessions;
  },
)

-- GetExpiredSessions
unfoldable pub get_expired_sessions : ℕ → Exec Db (List Uuid)
get_expired_sessions limit = statement λ t. (
  ok (
      take limit (
        map (λ (s : MeteringSession). s.request_id)
          (select (λ (s : MeteringSession). ltb s.expires_at t.now) t.sessions))),
  t,
)

-- GetMeteringSession
unfoldable pub get_metering_session : Uuid → Exec Db ℤ
get_metering_session request = statement λ t. (
  elim (find (λ (s : MeteringSession). s.request_id == request) t.sessions) [
    | none ↦ err no_rows
    | some s ↦ ok s.hold
  ],
  t,
)

-- GetUsageLogByRequestID
unfoldable pub get_usage_log_by_request_id : Uuid → Exec Db UsageLog
get_usage_log_by_request_id request = statement λ t. (
  elim (find (λ (l : UsageLog). l.request_id == request) t.usage_logs) [
    | none ↦ err no_rows
    | some l ↦ ok l
  ],
  t,
)

-- `user_id = $1 AND started_at > NOW() - INTERVAL '24 hours'`
abbrev pub is_recent : Uuid → Time → UsageLog → Bool
is_recent user now l = (l.user_id == user) && ltb now (l.started_at + 86400)

abbrev pub sum_captured : List UsageLog → ℤ
sum_captured [] = pos 0
sum_captured (l ∷ ls) = l.credits_captured +ℤ sum_captured ls

-- BurnRate24h
unfoldable pub burn_rate_24h : Uuid → Exec Db ℤ
burn_rate_24h user = statement λ t.
    let total = sum_captured (select (is_recent user t.now) t.usage_logs) in
    (if in_int64 total then ok total else err out_of_range, t)

pub record UsageSummaryRow : Type 0 where
  pub provider_slug : Text
  pub total : ℤ
  pub count : ℕ

-- `GROUP BY provider_slug`: adds a log to its provider's row.
unfoldable pub add_to_summary : UsageLog → List UsageSummaryRow → List UsageSummaryRow
add_to_summary l [] =
    record { provider_slug = l.provider_slug; total = l.credits_captured; count = 1 } ∷ []
add_to_summary l (r ∷ rows) =
    if r.provider_slug == l.provider_slug
    then record r { total = r.total +ℤ l.credits_captured; count = r.count + 1 } ∷ rows
    else r ∷ add_to_summary l rows

unfoldable pub summarize : List UsageLog → List UsageSummaryRow
summarize [] = []
summarize (l ∷ ls) = add_to_summary l (summarize ls)

abbrev pub rows_fit : List UsageSummaryRow → Bool
rows_fit [] = true
rows_fit (r ∷ rows) = in_int64 r.total && rows_fit rows

-- UsageSummary24h: scanning a total that is no int64 fails.
unfoldable pub usage_summary_24h : Uuid → Exec Db (List UsageSummaryRow)
usage_summary_24h user = statement λ t.
    let rows = summarize (select (is_recent user t.now) t.usage_logs) in
    (if rows_fit rows then ok rows else err out_of_range, t)
