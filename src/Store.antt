-- ===== src/Store.antt =====
-- internal/store/store.go over the tables of migrations/001_initial.sql: the tables, one SQL
-- statement, and a transaction. The operations and the proofs are in the modules below.
-- The database may fail at any statement: `outage` says at which. A failed statement changes
-- nothing, as in PostgreSQL, and a failed transaction is rolled back.
pub mod Rows
pub mod From
pub mod Users
pub mod Credits
pub mod Keys
pub mod Usage
pub mod Migrations
pub mod Balance
pub mod Atomic
use quarkgate.Exec.{Error, Exec, Result, err, ok, pure, unavailable, ◌>>=◌, ◌>>◌, bind-eq-ok}
use quarkgate.Models.{
  LedgerTransaction, MeteringSession, ProviderConfig, QuarkGateKey, Time, UsageLog, User, Uuid,
  VaultEntry,
}
use quarkgate.Prelude.{Bool, List, Text, arith, if◌then◌else◌, ℕ, ◌+◌, ◌≡◌, ◌∙◌, ap, sym}

pub record Tables : Type 0 where
  pub users : List User
  pub keys : List QuarkGateKey
  pub providers : List ProviderConfig
  pub vault : List VaultEntry
  pub ledger : List LedgerTransaction
  pub usage_logs : List UsageLog
  pub sessions : List MeteringSession
  pub migrations : List Text
  pub next_uuid : Uuid
  pub now : Time

pub record Db : Type 0 where
  pub tables : Tables
  pub outage : ℕ → Bool
  pub statements : ℕ

-- What is left of a statement's result: its writes if it succeeded, else the tables before it.
abbrev pub settle {ℓ} : {A : Type ℓ} → Tables → Result A × Tables → Result A × Tables
settle before (ok a, after) = (ok a, after)
settle before (err e, after) = (err e, before)

abbrev pub count_statement : Db → Db
count_statement db = record db { statements = db.statements + 1 }

unfoldable pub statement {ℓ} : {A : Type ℓ} → (Tables → Result A × Tables) → Db → Result A × Db
statement body db =
    if db.outage db.statements
    then (err unavailable, count_statement db)
    else let (r, after) = settle db.tables (body db.tables) in
      (r, record db { tables = after; statements = db.statements + 1 })

-- `pool.Begin` and `tx.Commit` talk to the database, and change no table.
abbrev pub round_trip : Db → Result (Unit {0}) × Db
round_trip = statement (λ t. (ok tt, t))

abbrev roll_back {ℓ} : {A : Type ℓ} → Db → Result A × Db → Result A × Db
roll_back before (ok a, after) = (ok a, after)
roll_back before (err e, after) = (err e, record after { tables = before.tables })

-- `Begin`, the body, `Commit`, with the deferred `Rollback`.
unfoldable pub transaction : {A : Type 0} → Exec Db A → Exec Db A
transaction body db = roll_back db ((do round_trip; a ← body; round_trip; pure a) db)

-- A statement that succeeds has run its body.
pub statement-eq-ok {ℓ} :
    {A : Type ℓ} (body : Tables → Result A × Tables) (db : Db) {a : A} {db' : Db}
    → statement body db ≡ (ok a, db')
    → body db.tables ≡ (ok a, db'.tables)
unfolding statement
statement-eq-ok body db h = ground arith

-- A statement that fails has changed no table.
pub statement-eq-err {ℓ} :
    {A : Type ℓ} (body : Tables → Result A × Tables) (db : Db) {e : Error} {db' : Db}
    → statement body db ≡ (err e, db')
    → db'.tables ≡ db.tables
unfolding statement
statement-eq-err body db h = ground arith

pub transaction-eq-err :
    {A : Type 0} (body : Exec Db A) (db : Db) {e : Error} {db' : Db}
    → transaction body db ≡ (err e, db')
    → db'.tables ≡ db.tables
unfolding transaction
transaction-eq-err body db h = ground arith

roll_back-eq-ok {ℓ} :
    {A : Type ℓ} (before : Db) (r : Result A × Db) {a : A} {db' : Db}
    → roll_back before r ≡ (ok a, db')
    → r ≡ (ok a, db')
roll_back-eq-ok before (ok a, after) h = h
roll_back-eq-ok before (err e, after) h = cc

round_trip-tables :
    (db : Db) {db' : Db} {a : Unit {0}} → round_trip db ≡ (ok a, db') → db'.tables ≡ db.tables
unfolding statement
round_trip-tables db h = ground arith

-- A transaction that succeeds has run its body to the end, from the tables before it.
pub transaction-eq-ok :
    {A : Type 0} (body : Exec Db A) (db : Db) {a : A} {db' : Db}
    → transaction body db ≡ (ok a, db')
    → (db₁ : Db) × (db₂ : Db) × (db₁.tables ≡ db.tables)
      × (body db₁ ≡ (ok a, db₂))
      × (db'.tables ≡ db₂.tables)
unfolding transaction
transaction-eq-ok {A} body db h =
    let rest : A → Exec Db A = λ a. round_trip >> pure a in
    let begun = bind-eq-ok round_trip (λ _. body >>= rest) db (roll_back-eq-ok db _ h) in
    let ran = bind-eq-ok body rest begun.1 begun.3 in
    let committed = bind-eq-ok round_trip (λ _. pure ran.0) ran.1 ran.3 in
    (
      begun.1,
      ran.1,
      round_trip-tables db begun.2,
      ran.2 ∙ ap (λ (r : Result A × Db). (r.0, ran.1)) committed.3,
      ap (λ (r : Result A × Db). r.1.tables) (sym committed.3)
          ∙ round_trip-tables ran.1 committed.2,
    )

-- A block that begins with a statement has succeeded: so have the statement and the rest.
pub bind-statement-eq-ok :
    {A B : Type 0} (body : Exec Tables A) (f : A → Exec Db B) (db : Db) {b : B} {db' : Db}
    → (statement body >>= f) db ≡ (ok b, db')
    → (a : A) × (db₁ : Db) × (body db.tables ≡ (ok a, db₁.tables)) × (f a db₁ ≡ (ok b, db'))
bind-statement-eq-ok body f db h =
    let (a, db₁, ran, rest) = bind-eq-ok (statement body) f db h in
    (a, db₁, statement-eq-ok body db ran, rest)
