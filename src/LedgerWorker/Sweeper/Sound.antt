-- ===== src/LedgerWorker/Sweeper/Sound.antt =====
-- One tick of runSweeper of cmd/ledger-worker/main.go and the invariant of the credit tables.
use quarkgate.Exec.{Exec, Result, continue, err, ignore, ok, ◌>>=◌, no_rows, ◌>>◌}
use quarkgate.LedgerWorker.Sweeper.{abandoned, hold_or_0, sweep, sweep_each, sweep_tick}
use quarkgate.Models.{MeteringSession, UsageLog, Uuid, TxnType}
use quarkgate.Prelude.{
  All, Bool, Bool-cases, InInt64, List, Text, [], find, inl, inr, ltb_ℤ, pos, refl, select, some,
  subst, ℤ, ◌∷◌, ◌≡◌, Option, arith, none, ◌==◌, nat_eq, text_eq, int_eq,
}
use quarkgate.Redis.Keys.{hold_key}
use quarkgate.Redis.Values.{delete_text}
use quarkgate.Store.{Db, Tables, statement, settle}
use quarkgate.Store.Balance.{IsSound}
use quarkgate.Store.Balance.Operations.{transaction_keeps, capture_and_release-IsSound}
use quarkgate.Store.Credits.{capture_and_release, close_usage_log}
use quarkgate.Store.Credits.Entries.{with_entry}
use quarkgate.Store.Credits.Settle.{capture_and_release-SettleDone}
use quarkgate.Store.From.{From-weaken}
use quarkgate.Store.Usage.{
  delete_metering_session, get_expired_sessions, get_metering_session, get_usage_log_by_request_id,
}
use quarkgate.World.{World, on_db, on_redis}
use quarkgate.World.Sound.{statement-IsSound, delete_metering_session-IsSound}

-- The column of a session's hold is a BIGINT.
abbrev pub HoldsFit : Tables → Type 0
HoldsFit t = All (λ (m : MeteringSession). InInt64 m.hold) t.sessions

abbrev Both : Tables → Type 0
Both t = IsSound t × HoldsFit t

record KeepsBoth {A : Type 0} (m : Exec World A) : Type 0 where
  at : (w : World) → Both w.db.tables → Both (m w).1.db.tables

KeepsBoth-bind :
    {A B : Type 0} (m : Exec World A) (f : A → Exec World B)
    → KeepsBoth m
    → ((a : A) → KeepsBoth (f a))
    → KeepsBoth (m >>= f)
KeepsBoth-bind {A} {B} m f km kf = record { at = λ w s. goes_on (m w).0 (m w).1 (km.at w s) }
  where
    goes_on : (r : Result A) (w : World) → Both w.db.tables → Both (continue r f w).1.db.tables
    goes_on (ok a) w s = (kf a).at w s
    goes_on (err e) w s = s

KeepsBoth-ignore : {A : Type 0} (m : Exec World A) → KeepsBoth m → KeepsBoth (ignore m)
KeepsBoth-ignore m k = record { at = λ w s. k.at w s }

-- A statement that changes neither the credits nor the sessions but by dropping some.
select-All :
    (P : MeteringSession → Type 0) (p : MeteringSession → Bool) (ms : List MeteringSession)
    → All P ms
    → All P (select p ms)
select-All P p [] h = tt
select-All P p (m ∷ ms) h = elim (Bool-cases (p m)) [
  | inl stays ↦ rw stays (h.0, select-All P p ms h.1)
  | inr goes ↦ rw goes (select-All P p ms h.1)
]

find-All :
    (P : MeteringSession → Type 0) (p : MeteringSession → Bool) (ms : List MeteringSession)
    {m : MeteringSession}
    → All P ms
    → find p ms ≡ some m
    → P m
find-All P p [] h e = cc
find-All P p (m ∷ ms) h e = elim (Bool-cases (p m)) [
  | inl hit ↦ let same : m ≡ _ = cc (rw hit at e) in subst P same h.0
  | inr miss ↦ find-All P p ms h.1 (rw miss at e)
]

statement-HoldsFit :
    {A : Type 0} (body : Exec Tables A) (db : Db)
    → HoldsFit (body db.tables).1
    → HoldsFit db.tables
    → HoldsFit (statement body db).1.tables
unfolding statement
statement-HoldsFit {A} body db after before = elim (Bool-cases (db.outage db.statements)) [
  | inl down ↦ rw down before
  | inr up ↦ rw up (settled (body db.tables).0 (body db.tables).1 after)
]
  where
    settled : (r : Result A) (t : Tables) → HoldsFit t → HoldsFit (settle db.tables (r, t)).1
    settled (ok a) t h = h
    settled (err e) t h = before

-- A statement that only reads.
read-Both :
    {A : Type 0} (body : Tables → Result A) (db : Db)
    → Both db.tables
    → Both (statement (λ t. (body t, t)) db).1.tables
read-Both body db (s, h) =
    (statement-IsSound _ (λ t. (refl, refl)) db s, statement-HoldsFit _ db h h)

sessions-with_entry :
    (t : Tables) (user : Uuid) (type : TxnType) (amount signed b : ℤ) (request : Uuid) (key : Text)
    → (with_entry t user type amount signed b request key).sessions ≡ t.sessions
sessions-with_entry t user type amount signed b request key =
    elim (Bool-cases (ltb_ℤ (pos 0) amount)) [
      | inl written ↦ rw written refl
      | inr absent ↦ rw absent refl
    ]

module _ (show_uuid : Uuid → Text) where
  capture_and_release-HoldsFit :
      (user request : Uuid) (captured released : ℤ) (usage : UsageLog) (client_key : Text) (db : Db)
      → HoldsFit db.tables
      → HoldsFit
          (capture_and_release show_uuid user request captured released usage client_key
            db).1.tables
  unfolding capture_and_release close_usage_log
  capture_and_release-HoldsFit user request captured released usage client_key db h =
      transaction_keeps HoldsFit _ db
        (From-weaken _ (λ _ t'. HoldsFit t')
          (λ ids t' d. rw (d.tables, sessions-with_entry, sessions-with_entry) h)
          (capture_and_release-SettleDone show_uuid db.tables user request captured released usage
            client_key))
        h

  -- What is left of a sweep once the hold is known.
  abbrev release_hold : Uuid → ℤ → Exec World (Unit {0})
  release_hold id held = do
    log ← on_db (get_usage_log_by_request_id id)
    on_db (capture_and_release show_uuid log.user_id id (pos 0) held (abandoned log) [])
    ignore (on_db (delete_metering_session id))
    ignore (on_redis (delete_text (hold_key (show_uuid id))))

  delete_metering_session-HoldsFit :
      (id : Uuid) (db : Db) → HoldsFit db.tables → HoldsFit (delete_metering_session id db).1.tables
  unfolding delete_metering_session
  delete_metering_session-HoldsFit id db h =
      statement-HoldsFit _ db (select-All _ _ db.tables.sessions h) h

  release_hold-KeepsBoth : (id : Uuid) (held : ℤ) → InInt64 held → KeepsBoth (release_hold id held)
  unfolding get_usage_log_by_request_id
  release_hold-KeepsBoth id held fits =
      KeepsBoth-bind (on_db (get_usage_log_by_request_id id)) _
        (record { at = λ w b. read-Both _ w.db b })
        λ (log : UsageLog).
          KeepsBoth-bind
            (on_db (capture_and_release show_uuid log.user_id id (pos 0) held (abandoned log) [])) _
            (record {
              at = λ w b. (
                capture_and_release-IsSound show_uuid log.user_id id (pos 0) held _ [] w.db
                    (omega arith, omega arith) fits b.0,
                capture_and_release-HoldsFit log.user_id id (pos 0) held _ [] w.db b.1,
              );
            })
            λ _.
              KeepsBoth-bind (ignore (on_db (delete_metering_session id)))
                (λ _. ignore (on_redis (delete_text (hold_key (show_uuid id)))))
                (record {
                  at = λ w b. (
                    delete_metering_session-IsSound id w.db b.0,
                    delete_metering_session-HoldsFit id w.db b.1,
                  );
                })
                λ _. record { at = λ w b. b }

  get_metering_session-Both :
      (id : Uuid) (db : Db) → Both db.tables → Both (get_metering_session id db).1.tables
  unfolding get_metering_session
  get_metering_session-Both id db b = read-Both _ db b

  fetched_hold :
      (id : Uuid) (db : Db)
      → HoldsFit db.tables
      → InInt64 (hold_or_0 (get_metering_session id db).0)
  unfolding get_metering_session statement
  fetched_hold id db h = elim (Bool-cases (db.outage db.statements)) [
    | inl down ↦ rw down (omega arith, omega arith)
    | inr up ↦
        rw up
          (by_session (find (λ (s : MeteringSession). s.request_id == id) db.tables.sessions) refl)
  ]
    where
      by_session :
          (o : Option MeteringSession)
          → find (λ (s : MeteringSession). s.request_id == id) db.tables.sessions ≡ o
          → InInt64 (
              hold_or_0
                (settle db.tables
                  (elim o [ none ↦ err no_rows | some s ↦ ok s.hold ], db.tables)).0)
      by_session none e = (omega arith, omega arith)
      by_session (some s) e = find-All _ _ db.tables.sessions h e

  sweep-KeepsBoth : (id : Uuid) → KeepsBoth (sweep show_uuid id)
  unfolding sweep
  sweep-KeepsBoth id = record {
    at = λ w b.
        let (held, db) = get_metering_session id w.db in
        (release_hold-KeepsBoth id (hold_or_0 held) (fetched_hold id w.db b.1)).at
          (record w { db = db }) (get_metering_session-Both id w.db b);
  }

  sweep_each-KeepsBoth : (ids : List Uuid) → KeepsBoth (sweep_each show_uuid ids)
  unfolding sweep_each
  sweep_each-KeepsBoth [] = record { at = λ w b. b }
  sweep_each-KeepsBoth (id ∷ ids) =
      KeepsBoth-bind (ignore (sweep show_uuid id)) _ (KeepsBoth-ignore _ (sweep-KeepsBoth id))
        λ _. sweep_each-KeepsBoth ids

  -- A tick of the sweeper keeps the balances equal to the ledger sums and not negative, wherever the
  -- database or Redis fails, where the holds of the sessions are int64s.
  pub sweep_tick-IsSound :
      (w : World)
      → IsSound w.db.tables
      → HoldsFit w.db.tables
      → IsSound (sweep_tick show_uuid w).1.db.tables
  unfolding sweep_tick get_expired_sessions
  sweep_tick-IsSound w s h =
      ((KeepsBoth-bind (on_db (get_expired_sessions 100)) (sweep_each show_uuid)
          (record { at = λ w₁ b. read-Both _ w₁.db b }) sweep_each-KeepsBoth).at
        w (s, h)).0
