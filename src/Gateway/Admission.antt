-- ===== src/Gateway/Admission.antt =====
-- SolvencyMiddleware of internal/gateway/middleware.go: the hold on a request's credits. Writing of
-- JSON, UUIDs and numbers, and the new UUID of the usage log, are parameters.
pub mod Held
pub mod Quiet
use quarkgate.Exec.{Exec, Result, attempt, err, fail, ignore, ok, pure, ◌>>=◌, ◌>>◌}
use quarkgate.Gateway.{Context, Decision, Gate, Request, pass, refuse, refuse_with, write_json}
use quarkgate.Json.{Fields}
use quarkgate.Models.{RouteMatch, Time, UsageLog, UsageStatus, Uuid}
use quarkgate.Prelude.{
  Dict, Option, Text, [], beq_ℤ, codes, if◌then◌else◌, ltb_ℤ, none, pos, some, ℤ, ◌++◌, ◌+◌, ◌==◌,
  ◌∷◌, nat_eq, text_eq, int_eq,
}
use quarkgate.Redis.Values.{get_balance, set_balance, set_hold}
use quarkgate.Store.Credits.{apply_hold}
use quarkgate.Store.Usage.{create_metering_session, create_usage_log}
use quarkgate.Store.Users.{get_user}
use quarkgate.World.{World, on_db, on_redis}

module _ (encode : Dict Text Text → Text) (show_uuid : Uuid → Text) (format_int64 : ℤ → Text)
    (parse_int64 : Text → Option ℤ) (new_uuid : World → Uuid) (hold_ttl : Time)
    (default_hold : ℤ) where
  -- The hold: the context's, or the default.
  unfoldable pub hold_for : Context → ℤ
  hold_for c = if beq_ℤ c.hold_micro (pos 0) then default_hold else c.hold_micro

  -- The key `hold-…`: of the client's key if there is one, else of the request.
  unfoldable pub hold_idempotency_key : Context → Text
  hold_idempotency_key c =
      codes "hold-"
      ++ (if c.idempotency_key == [] then show_uuid c.request_id else c.idempotency_key)

  abbrev pub cache_user_balance : Uuid → ℤ → Exec World (Unit {0})
  cache_user_balance user b =
      ignore (on_redis (set_balance format_int64 parse_int64 (show_uuid user) b))

  -- The balance where Redis has none: the user's, which is then cached.
  unfoldable pub stored_balance : Uuid → Exec World ℤ
  stored_balance user = do
    u ← on_db (get_user user)
    cache_user_balance user u.balance
    pure u.balance

  -- By the answer of Redis; its error is tested after the look into the database.
  unfoldable pub balance_from : Uuid → Result (Option ℤ) → Exec World ℤ
  balance_from user (ok (some b)) = pure b
  balance_from user (ok none) = stored_balance user
  balance_from user (err e) = stored_balance user >> fail e

  unfoldable pub known_balance : Uuid → Exec World ℤ
  known_balance user = do
    cached ← attempt (on_redis (get_balance format_int64 parse_int64 (show_uuid user)))
    balance_from user cached

  -- The usage log of a request with a hold.
  unfoldable pub pending_log : Context → RouteMatch → World → UsageLog
  unfolding hold_for
  pending_log c route w = record {
    id = new_uuid w;
    user_id = c.user_id;
    key_id = c.key_id;
    provider_slug = route.provider;
    operation = route.operation;
    request_id = c.request_id;
    status = UsageStatus.pending;
    raw_usage = Fields.empty;
    normalized_usage = Fields.empty;
    credits_reserved = hold_for c;
    credits_captured = pos 0;
    latency_ms = none;
    trace_id = c.trace_id;
    started_at = w.db.tables.now;
    completed_at = none;
    capture_txn = none;
    release_txn = none;
  }

  -- What follows a hold in Redis.
  unfoldable pub cache_hold : Context → ℤ → Exec World (Unit {0})
  cache_hold c b = do
    cache_user_balance c.user_id b
    ignore (
        on_redis (set_hold format_int64 parse_int64 (show_uuid c.request_id) (hold_for c) hold_ttl))

  -- The last step: the metering session.
  unfoldable pub open_session : Request → Result (Unit {0}) → World → Decision × World
  open_session r (err e) w = (refuse_with encode 500 (codes "metering session failed"), w)
  open_session r (ok _) w =
      (pass (record r { context = record r.context { hold_micro = hold_for r.context } }), w)

  -- After the usage log.
  unfoldable pub create_session : Request → Result (Unit {0}) → World → Decision × World
  create_session r (err e) w = (refuse_with encode 500 (codes "usage log failed"), w)
  create_session r (ok _) w =
      let c = r.context in
      let (created, w₁) =
        on_db
          (create_metering_session c.request_id c.user_id (hold_for c) (w.db.tables.now + hold_ttl))
          w in
      open_session r created w₁

  -- A handler that panics; the server drops the connection.
  abbrev pub aborted : Decision
  aborted = refuse (record { status = 0; headers = []; body = [] })

  -- After the hold.
  unfoldable pub log_request : Request → Option RouteMatch → World → Decision × World
  log_request r none w = (aborted, w)
  log_request r (some route) w =
      let (created, w₁) = on_db (create_usage_log (pending_log r.context route w)) w in
      create_session r created w₁

  unfoldable pub record_hold : Request → Result ℤ → World → Decision × World
  record_hold r (err e) w = (refuse_with encode 402 (codes "insufficient_credits"), w)
  record_hold r (ok b) w = log_request r r.context.route (cache_hold r.context b w).1

  -- After the first look at the balance.
  unfoldable pub hold_credits : Request → Result ℤ → World → Decision × World
  hold_credits r (err e) w = (refuse_with encode 500 (codes "balance check failed"), w)
  hold_credits r (ok known) w =
      let c = r.context in
      let (held, w₁) =
        on_db (apply_hold c.user_id (hold_for c) c.request_id (hold_idempotency_key c)) w in
      let held_or_not = record_hold r held w₁ in
      if ltb_ℤ known (hold_for c)
      then (
        refuse (
            write_json encode 402 (
              (codes "error", codes "insufficient_credits")
              ∷ (codes "balance_micro", format_int64 known)
              ∷ (codes "required_micro", format_int64 (hold_for c))
              ∷ [])),
        w,
      )
      else held_or_not

  -- SolvencyMiddleware.Wrap
  unfoldable pub check_solvency : Gate
  check_solvency r w =
      let (known, w₁) = known_balance r.context.user_id w in hold_credits r known w₁
