-- ===== src/Store/Atomic.antt =====
-- What the transactions of internal/store/store.go do as a whole: an idempotency key serves
-- once.
use quarkgate.Exec.{ok}
use quarkgate.Models.{LedgerTransaction, UsageLog, Uuid, TxnType}
use quarkgate.Prelude.{
  List, Text, [], arith, refl, true, ℤ, ◌++◌, ◌||◌, ◌∷◌, ◌≡◌, Bool-cases, codes, inl, inr, ltb_ℤ,
  neg, pos, text_beq_refl,
}
use quarkgate.Store.{Db, Tables}
use quarkgate.Store.Credits.{
  apply_hold, capture_and_release, LedgerTxnIds, close_usage_log, settlement_key,
}
use quarkgate.Store.Credits.Effects.{apply_hold-HoldDone}
use quarkgate.Store.Credits.Entries.{with_entry}
use quarkgate.Store.Credits.Settle.{capture_and_release-SettleDone}
use quarkgate.Store.Credits.Steps.{with_row, with_balance}
use quarkgate.Store.Rows.{has_idempotency_key}

has_idempotency_key-append :
    (key : Text) (xs ys : List LedgerTransaction)
    → has_idempotency_key key (xs ++ ys)
      ≡ (has_idempotency_key key xs || has_idempotency_key key ys)
has_idempotency_key-append key [] ys = refl
has_idempotency_key-append key (x ∷ xs) ys = ground (arith, has_idempotency_key-append key xs ys)

-- A new row's key is in the ledger.
has_idempotency_key-row :
    (key : Text) (t : Tables) (row : LedgerTransaction)
    → row.idempotency_key ≡ key
    → has_idempotency_key key (with_row t row).ledger ≡ true
has_idempotency_key-row key t row e =
    rw (has_idempotency_key-append key t.ledger (row ∷ [])) (ground (arith, e, text_beq_refl key))

-- The key of a hold that succeeded is in the ledger.
apply_hold-has_key :
    (user : Uuid) (amount : ℤ) (request : Uuid) (key : Text) (db : Db) {b : ℤ} {db' : Db}
    → apply_hold user amount request key db ≡ (ok b, db')
    → has_idempotency_key key db'.tables.ledger ≡ true
apply_hold-has_key user amount request key db {b} {db'} e =
    rw ((apply_hold-HoldDone db.tables user amount request key).at db refl b db' e).tables
      (has_idempotency_key-row key (with_balance db.tables user b) _ refl)

-- After a hold with a key, no hold with the same key succeeds, for no user, amount or request.
pub apply_hold_once :
    (user other : Uuid) (amount amount' : ℤ) (request request' : Uuid) (key : Text) (db : Db)
    {b : ℤ} {db₁ : Db} (b' : ℤ) (db₂ : Db)
    → apply_hold user amount request key db ≡ (ok b, db₁)
    → ¬ (apply_hold other amount' request' key db₁ ≡ (ok b', db₂))
apply_hold_once user other amount amount' request request' key db {b} {db₁} b' db₂ first second =
    let d₂ =
      (apply_hold-HoldDone db₁.tables other amount' request' key).at db₁ refl b' db₂ second in
    cc (apply_hold-has_key user amount request key db first, d₂.fresh)

-- Closing a usage log leaves the ledger alone.
ledger-close_usage_log :
    (request : Uuid) (usage : UsageLog) (captured : ℤ) (ids : LedgerTxnIds) (t : Tables)
    → (close_usage_log request usage captured ids t).1.ledger ≡ t.ledger
unfolding close_usage_log
ledger-close_usage_log request usage captured ids t = refl

module _ (t : Tables) (user : Uuid) (type : TxnType) (amount signed b : ℤ) (request : Uuid)
    (key : Text) where
  -- An amount that was written has its key in the ledger.
  has_key-with_entry :
      ltb_ℤ (pos 0) amount ≡ true
      → has_idempotency_key key (with_entry t user type amount signed b request key).ledger ≡ true
  has_key-with_entry e = rw e (has_idempotency_key-row key t _ refl)

  -- A conditional insert loses no key.
  has_key_kept-with_entry :
      (other : Text)
      → has_idempotency_key other t.ledger ≡ true
      → has_idempotency_key other (with_entry t user type amount signed b request key).ledger ≡ true
  has_key_kept-with_entry other h = elim (Bool-cases (ltb_ℤ (pos 0) amount)) [
    | inl e ↦ rw (e, has_idempotency_key-append other t.ledger, h) refl
    | inr e ↦ rw (e, h) refl
  ]

-- After a settlement that captured something, no second settlement of the same request and the same
-- client key that captures something succeeds, whatever it captures or releases.
pub capture_and_release_once :
    (show_uuid : Uuid → Text) (user request : Uuid) (captured released captured' released' : ℤ)
    (usage usage' : UsageLog) (client_key : Text) (db : Db) {ids : LedgerTxnIds} {db₁ : Db}
    (ids' : LedgerTxnIds) (db₂ : Db)
    → ltb_ℤ (pos 0) captured ≡ true
    → ltb_ℤ (pos 0) captured' ≡ true
    → capture_and_release show_uuid user request captured released usage client_key db
      ≡ (ok ids, db₁)
    → ¬ (
        capture_and_release show_uuid user request captured' released' usage' client_key db₁
        ≡ (ok ids', db₂))
capture_and_release_once show_uuid user request captured released captured' released' usage usage'
      client_key db {ids} {db₁} ids' db₂ some_captured some_captured' first second =
    let d₁ =
      (capture_and_release-SettleDone show_uuid db.tables user request captured released usage
          client_key).at
        db refl ids db₁ first in
    let d₂ =
      (capture_and_release-SettleDone show_uuid db₁.tables user request captured' released' usage'
          client_key).at
        db₁ refl ids' db₂ second in
    let key = settlement_key show_uuid (codes "capture-") request client_key in
    let used : has_idempotency_key key db₁.tables.ledger ≡ true =
      rw (d₁.tables, ledger-close_usage_log)
        (has_key_kept-with_entry _ user TxnType.release released released _ request _ key (
          has_key-with_entry db.tables user TxnType.capture captured (neg captured) _ request key
            some_captured)) in
    cc (used, d₂.fresh_capture some_captured')
