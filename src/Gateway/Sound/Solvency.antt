-- ===== src/Gateway/Sound/Solvency.antt =====
-- SolvencyMiddleware of internal/gateway/middleware.go and the invariant of the credit tables.
use quarkgate.Exec.{Result, err, ok}
use quarkgate.Gateway.{Context, Request}
use quarkgate.Gateway.Admission.{
  balance_from, cache_hold, check_solvency, create_session, hold_credits, hold_for, known_balance,
  log_request, open_session, record_hold, stored_balance,
}
use quarkgate.Gateway.Sound.{HasInt64Hold, KeepsGate, LeavesSound}
use quarkgate.Models.{RouteMatch, Time, Uuid}
use quarkgate.Prelude.{
  Bool-cases, Dict, InInt64, Option, Text, beq_ℤ, inl, inr, ltb_ℤ, none, pos, some, ℤ,
}
use quarkgate.Redis.Values.{get_balance}
use quarkgate.Store.Balance.{IsSound}
use quarkgate.Store.Balance.Operations.{apply_hold-IsSound}
use quarkgate.Store.Users.{get_user}
use quarkgate.World.{World, on_db}
use quarkgate.World.Sound.{
  KeepsSound, KeepsSound-bind, KeepsSound-then, create_metering_session-IsSound,
  create_usage_log-IsSound, get_user-IsSound,
}

module _ (encode : Dict Text Text → Text) (show_uuid : Uuid → Text) (format_int64 : ℤ → Text)
    (parse_int64 : Text → Option ℤ) (new_uuid : World → Uuid) (hold_ttl : Time) (default_hold : ℤ)
    (default_fits : InInt64 default_hold) where
  hold_for-InInt64 :
      (c : Context)
      → InInt64 c.hold_micro
      → InInt64
          (hold_for encode show_uuid format_int64 parse_int64 new_uuid hold_ttl default_hold c)
  unfolding hold_for
  hold_for-InInt64 c h = elim (Bool-cases (beq_ℤ c.hold_micro (pos 0))) [
    | inl unset ↦ rw unset default_fits
    | inr set ↦ rw set h
  ]

  stored_balance-KeepsSound :
      (user : Uuid)
      → KeepsSound (
          stored_balance encode show_uuid format_int64 parse_int64 new_uuid hold_ttl default_hold
            user)
  unfolding stored_balance
  stored_balance-KeepsSound user =
      KeepsSound-bind (on_db (get_user user)) _
        (record { at = λ w s. get_user-IsSound user w.db s }) λ u. record { at = λ w s. s }

  balance_from-KeepsSound :
      (user : Uuid) (r : Result (Option ℤ))
      → KeepsSound (
          balance_from encode show_uuid format_int64 parse_int64 new_uuid hold_ttl default_hold user
            r)
  unfolding balance_from
  balance_from-KeepsSound user (ok (some b)) = record { at = λ w s. s }
  balance_from-KeepsSound user (ok none) = stored_balance-KeepsSound user
  balance_from-KeepsSound user (err e) =
      KeepsSound-then
        (stored_balance encode show_uuid format_int64 parse_int64 new_uuid hold_ttl default_hold
          user)
        _ (stored_balance-KeepsSound user) (record { at = λ w s. s })

  open_session-Keeps :
      (r : Request) (created : Result (Unit {0})) (w : World)
      → HasInt64Hold r
      → IsSound w.db.tables
      → LeavesSound (
          open_session encode show_uuid format_int64 parse_int64 new_uuid hold_ttl default_hold r
            created w)
  unfolding open_session
  open_session-Keeps r (err e) w h s = (s, tt)
  open_session-Keeps r (ok _) w h s = (s, hold_for-InInt64 r.context h)

  create_session-Keeps :
      (r : Request) (created : Result (Unit {0})) (w : World)
      → HasInt64Hold r
      → IsSound w.db.tables
      → LeavesSound (
          create_session encode show_uuid format_int64 parse_int64 new_uuid hold_ttl default_hold r
            created w)
  unfolding create_session
  create_session-Keeps r (err e) w h s = (s, tt)
  create_session-Keeps r (ok _) w h s =
      open_session-Keeps r _ _ h (create_metering_session-IsSound _ _ _ _ w.db s)

  log_request-Keeps :
      (r : Request) (route : Option RouteMatch) (w : World)
      → HasInt64Hold r
      → IsSound w.db.tables
      → LeavesSound (
          log_request encode show_uuid format_int64 parse_int64 new_uuid hold_ttl default_hold r
            route w)
  unfolding log_request
  log_request-Keeps r none w h s = (s, tt)
  log_request-Keeps r (some route) w h s =
      create_session-Keeps r _ _ h (create_usage_log-IsSound _ w.db s)

  record_hold-Keeps :
      (r : Request) (held : Result ℤ) (w : World)
      → HasInt64Hold r
      → IsSound w.db.tables
      → LeavesSound (
          record_hold encode show_uuid format_int64 parse_int64 new_uuid hold_ttl default_hold r
            held w)
  unfolding record_hold cache_hold
  record_hold-Keeps r (err e) w h s = (s, tt)
  record_hold-Keeps r (ok b) w h s = log_request-Keeps r r.context.route _ h s

  hold_credits-Keeps :
      (r : Request) (known : Result ℤ) (w : World)
      → HasInt64Hold r
      → IsSound w.db.tables
      → LeavesSound (
          hold_credits encode show_uuid format_int64 parse_int64 new_uuid hold_ttl default_hold r
            known w)
  unfolding hold_credits
  hold_credits-Keeps r (err e) w h s = (s, tt)
  hold_credits-Keeps r (ok known) w h s =
      let hold =
        hold_for encode show_uuid format_int64 parse_int64 new_uuid hold_ttl default_hold
          r.context in
      elim (Bool-cases (ltb_ℤ known hold)) [
        | inl short ↦ rw short (s, tt)
        | inr covered ↦ rw covered (
            record_hold-Keeps r _ _ h (
              apply_hold-IsSound r.context.user_id hold r.context.request_id _ w.db
                (hold_for-InInt64 r.context h) s))
      ]

  pub check_solvency-KeepsGate :
      KeepsGate
        (check_solvency encode show_uuid format_int64 parse_int64 new_uuid hold_ttl default_hold)
  unfolding check_solvency known_balance
  check_solvency-KeepsGate = record {
    at = λ r w h s.
        let user = r.context.user_id in
        let (cached, redis) = get_balance format_int64 parse_int64 (show_uuid user) w.redis in
        hold_credits-Keeps r _ _ h
          ((balance_from-KeepsSound user cached).at (record w { redis = redis }) s);
  }
