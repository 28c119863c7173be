-- ===== src/Gateway/Admission/Quiet.antt =====
-- What SolvencyMiddleware of internal/gateway/middleware.go leaves alone: the metering stream, and of a
-- request that passes all but its hold.
use quarkgate.Exec.{Result, err, ok}
use quarkgate.Gateway.{Decision, Request, pass, refuse}
use quarkgate.Gateway.Admission.{
  balance_from, cache_hold, cache_user_balance, check_solvency, create_session, hold_credits,
  hold_for, known_balance, log_request, open_session, record_hold, stored_balance,
}
use quarkgate.Models.{RouteMatch, Time, Uuid}
use quarkgate.Prelude.{
  Bool-cases, Dict, Option, Text, inl, inr, ltb_ℤ, none, refl, some, ℤ, ◌≡◌, beq_ℤ, if◌then◌else◌,
  pos,
}
use quarkgate.Redis.{Redis}
use quarkgate.Redis.Quiet.{
  same_stream, IsQuiet, IsQuiet-bind, SameStream, SameStream-trans, on_db-IsQuiet,
  set_text-SameStream, get_int64-SameStream,
}
use quarkgate.Redis.Values.{get_balance, set_balance, set_hold}
use quarkgate.Store.Users.{get_user}
use quarkgate.World.{World, on_db}

module _ (encode : Dict Text Text → Text) (show_uuid : Uuid → Text) (format_int64 : ℤ → Text)
    (parse_int64 : Text → Option ℤ) (new_uuid : World → Uuid) (hold_ttl : Time)
    (default_hold : ℤ) where
  -- The request with its hold, the context's or the default.
  abbrev pub with_hold : Request → Request
  with_hold r = record r {
    context = record r.context {
      hold_micro =
          if beq_ℤ r.context.hold_micro (pos 0) then default_hold else r.context.hold_micro;
    };
  }

  abbrev pub PassesHeld : Request → Decision → Type 0
  PassesHeld r (refuse reply) = Unit
  PassesHeld r (pass r') = r' ≡ with_hold r

  abbrev pub LeavesQuiet : Request → Redis → Decision × World → Type 0
  LeavesQuiet r a (d, w) = SameStream a w.redis × PassesHeld r d

  cache_user_balance-IsQuiet :
      (user : Uuid) (b : ℤ)
      → IsQuiet (
          cache_user_balance encode show_uuid format_int64 parse_int64 new_uuid hold_ttl
            default_hold user b)
  unfolding set_balance
  cache_user_balance-IsQuiet user b = record { at = λ w. set_text-SameStream _ _ _ w.redis }

  stored_balance-IsQuiet :
      (user : Uuid)
      → IsQuiet (
          stored_balance encode show_uuid format_int64 parse_int64 new_uuid hold_ttl default_hold
            user)
  unfolding stored_balance
  stored_balance-IsQuiet user =
      IsQuiet-bind (on_db (get_user user)) _ (on_db-IsQuiet (get_user user))
        λ u. record { at = λ w. (cache_user_balance-IsQuiet user u.balance).at w }

  balance_from-IsQuiet :
      (user : Uuid) (r : Result (Option ℤ))
      → IsQuiet (
          balance_from encode show_uuid format_int64 parse_int64 new_uuid hold_ttl default_hold user
            r)
  unfolding balance_from
  balance_from-IsQuiet user (ok (some b)) = record { at = λ w. same_stream w.redis }
  balance_from-IsQuiet user (ok none) = stored_balance-IsQuiet user
  balance_from-IsQuiet user (err e) =
      IsQuiet-bind
        (stored_balance encode show_uuid format_int64 parse_int64 new_uuid hold_ttl default_hold
          user)
        _ (stored_balance-IsQuiet user) λ _. record { at = λ w. same_stream w.redis }

  open_session-LeavesQuiet :
      (r : Request) (created : Result (Unit {0})) (a : Redis) (w : World)
      → SameStream a w.redis
      → LeavesQuiet r a (
          open_session encode show_uuid format_int64 parse_int64 new_uuid hold_ttl default_hold r
            created w)
  unfolding open_session hold_for
  open_session-LeavesQuiet r (err e) a w q = (q, tt)
  open_session-LeavesQuiet r (ok _) a w q = (q, refl)

  create_session-LeavesQuiet :
      (r : Request) (created : Result (Unit {0})) (a : Redis) (w : World)
      → SameStream a w.redis
      → LeavesQuiet r a (
          create_session encode show_uuid format_int64 parse_int64 new_uuid hold_ttl default_hold r
            created w)
  unfolding create_session
  create_session-LeavesQuiet r (err e) a w q = (q, tt)
  create_session-LeavesQuiet r (ok _) a w q = open_session-LeavesQuiet r _ a _ q

  log_request-LeavesQuiet :
      (r : Request) (route : Option RouteMatch) (a : Redis) (w : World)
      → SameStream a w.redis
      → LeavesQuiet r a (
          log_request encode show_uuid format_int64 parse_int64 new_uuid hold_ttl default_hold r
            route w)
  unfolding log_request
  log_request-LeavesQuiet r none a w q = (q, tt)
  log_request-LeavesQuiet r (some route) a w q = create_session-LeavesQuiet r _ a _ q

  record_hold-LeavesQuiet :
      (r : Request) (held : Result ℤ) (a : Redis) (w : World)
      → SameStream a w.redis
      → LeavesQuiet r a (
          record_hold encode show_uuid format_int64 parse_int64 new_uuid hold_ttl default_hold r
            held w)
  unfolding record_hold cache_hold set_hold
  record_hold-LeavesQuiet r (err e) a w q = (q, tt)
  record_hold-LeavesQuiet r (ok b) a w q = log_request-LeavesQuiet r r.context.route a _ (
      SameStream-trans q (
        SameStream-trans ((cache_user_balance-IsQuiet r.context.user_id b).at w)
          (set_text-SameStream _ _ _ _)))

  hold_credits-LeavesQuiet :
      (r : Request) (known : Result ℤ) (a : Redis) (w : World)
      → SameStream a w.redis
      → LeavesQuiet r a (
          hold_credits encode show_uuid format_int64 parse_int64 new_uuid hold_ttl default_hold r
            known w)
  unfolding hold_credits
  hold_credits-LeavesQuiet r (err e) a w q = (q, tt)
  hold_credits-LeavesQuiet r (ok known) a w q =
      elim (Bool-cases (
        ltb_ℤ known (
          hold_for encode show_uuid format_int64 parse_int64 new_uuid hold_ttl default_hold
            r.context))) [
              | inl short ↦ rw short (q, tt)
              | inr covered ↦ rw covered (record_hold-LeavesQuiet r _ a _ q)
            ]

  get_balance-SameStream :
      (user : Text) (r : Redis) → SameStream r (get_balance format_int64 parse_int64 user r).1
  unfolding get_balance
  get_balance-SameStream user r = get_int64-SameStream format_int64 parse_int64 _ r

  -- The gate leaves the metering stream as it is, and a request that passes has its hold.
  pub check_solvency-LeavesQuiet :
      (r : Request) (w : World)
      → LeavesQuiet r w.redis (
          check_solvency encode show_uuid format_int64 parse_int64 new_uuid hold_ttl default_hold r
            w)
  unfolding check_solvency known_balance
  check_solvency-LeavesQuiet r w =
      let user = r.context.user_id in
      let (cached, redis) = get_balance format_int64 parse_int64 (show_uuid user) w.redis in
      hold_credits-LeavesQuiet r _ w.redis _ (
        SameStream-trans (get_balance-SameStream (show_uuid user) w.redis)
          ((balance_from-IsQuiet user cached).at (record w { redis = redis })))
