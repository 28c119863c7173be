-- ===== src/Gateway/Admission/Held.antt =====
-- What SolvencyMiddleware of internal/gateway/middleware.go has recorded when it lets a request pass.
use quarkgate.Exec.{ok, Result, err}
use quarkgate.Gateway.{Context, Decision, Request, pass, refuse}
use quarkgate.Gateway.Admission.{
  hold_idempotency_key, cache_hold, check_solvency, create_session, hold_credits, hold_for,
  known_balance, log_request, open_session, pending_log, record_hold,
}
use quarkgate.Models.{LedgerTransaction, TxnType, MeteringSession, Time, Uuid, RouteMatch}
use quarkgate.Prelude.{
  Dict, Option, Text, ℤ, ◌≡◌, Bool-cases, ap, inl, inr, refl, ltb_ℤ, none, some, ◌+◌, List, [], neg,
  wrap64, ◌++◌, ◌∷◌, beq_ℤ, if◌then◌else◌, pos, codes, ◌==◌, nat_eq, text_eq, int_eq,
}
use quarkgate.Store.{Db, Tables}
use quarkgate.Store.Credits.{apply_hold}
use quarkgate.Store.Credits.Effects.{apply_hold-HoldDone}
use quarkgate.Store.Usage.{create_metering_session, create_usage_log}
use quarkgate.Store.Usage.Created.{create_metering_session-eq-ok, create_usage_log-eq-ok}
use quarkgate.World.{World}

module _ (encode : Dict Text Text → Text) (show_uuid : Uuid → Text) (format_int64 : ℤ → Text)
    (parse_int64 : Text → Option ℤ) (new_uuid : World → Uuid) (hold_ttl : Time)
    (default_hold : ℤ) where
  -- The amount to hold: the context's, or the default where it has none.
  abbrev held_amount : Context → ℤ
  held_amount c = if beq_ℤ c.hold_micro (pos 0) then default_hold else c.hold_micro

  -- A row of the ledger that takes the request's hold from its user, under the client's key or, where
  -- there is none, the request's.
  pub record IsHoldRow (c : Context) (row : LedgerTransaction) : Type 0 where
    pub of_user : row.user_id ≡ c.user_id
    pub of_hold : row.type ≡ TxnType.hold
    pub amount : row.amount ≡ wrap64 (neg (held_amount c))
    pub reference : row.reference_id ≡ some c.request_id
    pub key :
        row.idempotency_key
        ≡ codes "hold-"
          ++ (if c.idempotency_key == [] then show_uuid c.request_id else c.idempotency_key)

  pub record IsSession (c : Context) (m : MeteringSession) : Type 0 where
    pub of_request : m.request_id ≡ c.request_id
    pub of_user : m.user_id ≡ c.user_id
    pub hold : m.hold ≡ held_amount c

  -- The last row of the ledger is the request's hold.
  abbrev pub EndsWithHold : Context → List LedgerTransaction → Type 0
  EndsWithHold c ledger =
      (earlier : List LedgerTransaction) × (row : LedgerTransaction) × (ledger
        ≡ earlier ++ row ∷ [])
      × IsHoldRow c row

  -- The last metering session is the request's.
  abbrev pub EndsWithSession : Context → List MeteringSession → Type 0
  EndsWithSession c sessions =
      (earlier : List MeteringSession) × (m : MeteringSession) × (sessions ≡ earlier ++ m ∷ [])
      × IsSession c m

  pub record IsHeld (c : Context) (t : Tables) : Type 0 where
    pub in_ledger : EndsWithHold c t.ledger
    pub has_session : EndsWithSession c t.sessions

  abbrev pub IsHeldIfPassed : Context → Decision × World → Type 0
  IsHeldIfPassed c (refuse reply, w) = Unit
  IsHeldIfPassed c (pass r, w) = IsHeld c w.db.tables

  open_session-IsHeld :
      (r : Request) (created : Result (Unit {0})) (w : World)
      → (created ≡ ok tt → IsHeld r.context w.db.tables)
      → IsHeldIfPassed r.context (
          open_session encode show_uuid format_int64 parse_int64 new_uuid hold_ttl default_hold r
            created w)
  unfolding open_session
  open_session-IsHeld r (err e) w k = tt
  open_session-IsHeld r (ok _) w k = k refl

  create_session-IsHeld :
      (r : Request) (created : Result (Unit {0})) (w : World)
      → (created ≡ ok tt → EndsWithHold r.context w.db.tables.ledger)
      → IsHeldIfPassed r.context (
          create_session encode show_uuid format_int64 parse_int64 new_uuid hold_ttl default_hold r
            created w)
  unfolding create_session hold_for
  create_session-IsHeld r (err e) w k = tt
  create_session-IsHeld r (ok _) w k =
      let c = r.context in
      let made =
        create_metering_session c.request_id c.user_id
          (hold_for encode show_uuid format_int64 parse_int64 new_uuid hold_ttl default_hold c)
          (w.db.tables.now + hold_ttl) w.db in
      open_session-IsHeld r made.0 (record w { db = made.1 })
        λ e.
          let (ledger, (m, last, of_request, of_user, hold)) =
            create_metering_session-eq-ok c.request_id c.user_id _ _ w.db made.1
              (ap (λ x. (x, made.1)) e) in
          record {
            in_ledger = rw ledger (k refl);
            has_session = (
              w.db.tables.sessions,
              m,
              last,
              record { of_request = of_request; of_user = of_user; hold = hold },
            );
          }

  log_request-IsHeld :
      (r : Request) (route : Option RouteMatch) (w : World)
      → EndsWithHold r.context w.db.tables.ledger
      → IsHeldIfPassed r.context (
          log_request encode show_uuid format_int64 parse_int64 new_uuid hold_ttl default_hold r
            route w)
  unfolding log_request
  log_request-IsHeld r none w k = tt
  log_request-IsHeld r (some route) w k =
      let made =
        create_usage_log
          (pending_log encode show_uuid format_int64 parse_int64 new_uuid hold_ttl default_hold
            r.context route w)
          w.db in
      create_session-IsHeld r made.0 (record w { db = made.1 })
        λ e. rw (create_usage_log-eq-ok _ w.db made.1 (ap (λ x. (x, made.1)) e)) k

  record_hold-IsHeld :
      (r : Request) (held : Result ℤ) (w : World)
      → ((b : ℤ) → held ≡ ok b → EndsWithHold r.context w.db.tables.ledger)
      → IsHeldIfPassed r.context (
          record_hold encode show_uuid format_int64 parse_int64 new_uuid hold_ttl default_hold r
            held w)
  unfolding record_hold cache_hold
  record_hold-IsHeld r (err e) w k = tt
  record_hold-IsHeld r (ok b) w k = log_request-IsHeld r r.context.route _ (k b refl)

  -- A hold that succeeded is the last row.
  apply_hold-EndsWithHold :
      (c : Context) (db : Db) (b : ℤ) (db' : Db)
      → apply_hold c.user_id
          (held_amount c)
          c.request_id
          (hold_idempotency_key encode show_uuid format_int64 parse_int64 new_uuid hold_ttl
            default_hold c)
          db
        ≡ (ok b, db')
      → EndsWithHold c db'.tables.ledger
  unfolding hold_idempotency_key
  apply_hold-EndsWithHold c db b db' e =
      let done =
        (apply_hold-HoldDone db.tables c.user_id (held_amount c) c.request_id _).at db refl b db'
          e in
      rw done.tables (
        db.tables.ledger,
        _,
        refl,
        record { of_user = refl; of_hold = refl; amount = refl; reference = refl; key = refl },
      )

  hold_credits-IsHeld :
      (r : Request) (known : Result ℤ) (w : World)
      → IsHeldIfPassed r.context (
          hold_credits encode show_uuid format_int64 parse_int64 new_uuid hold_ttl default_hold r
            known w)
  unfolding hold_credits hold_for
  hold_credits-IsHeld r (err e) w = tt
  hold_credits-IsHeld r (ok known) w =
      let c = r.context in
      let hold =
        hold_for encode show_uuid format_int64 parse_int64 new_uuid hold_ttl default_hold c in
      let held =
        apply_hold c.user_id hold c.request_id
          (hold_idempotency_key encode show_uuid format_int64 parse_int64 new_uuid hold_ttl
            default_hold c)
          w.db in
      elim (Bool-cases (ltb_ℤ known hold)) [
        | inl short ↦ rw short tt
        | inr covered ↦ rw covered (
            record_hold-IsHeld r held.0 (record w { db = held.1 })
              λ b e. apply_hold-EndsWithHold c w.db b held.1 (ap (λ x. (x, held.1)) e))
      ]

  -- A request that passes has its hold as the last row of the ledger: of its user, with the whole
  -- amount of the hold taken, and with its request and its key. Its metering session, with the same
  -- user and hold, is the last in the table that the sweeper reads. So it is also where the cached
  -- balance was wrong or Redis failed.
  pub check_solvency-IsHeld :
      (r : Request) (w : World)
      → IsHeldIfPassed r.context (
          check_solvency encode show_uuid format_int64 parse_int64 new_uuid hold_ttl default_hold r
            w)
  unfolding check_solvency
  check_solvency-IsHeld r w =
      hold_credits-IsHeld r
        (known_balance encode show_uuid format_int64 parse_int64 new_uuid hold_ttl default_hold
          r.context.user_id w).0
        (known_balance encode show_uuid format_int64 parse_int64 new_uuid hold_ttl default_hold
          r.context.user_id w).1
