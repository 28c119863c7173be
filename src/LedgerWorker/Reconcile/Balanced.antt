-- ===== src/LedgerWorker/Reconcile/Balanced.antt =====
-- What the command `reconcile-user` of cmd/admin/main.go leaves.
use quarkgate.Exec.{Exec, Result, bind-eq-ok, err, ok, out_of_range}
use quarkgate.LedgerWorker.Reconcile.{reconcile_user}
use quarkgate.Models.{User, Uuid}
use quarkgate.Prelude.{
  Bool-cases, Text, ap, arith, beq_ℤ, if◌then◌else◌, in_int64, inl, inr, refl, some, ℤ, ◌≡◌,
  beq_ℤ_iff, sym, ◌∙◌,
}
use quarkgate.Store.{Db, Tables, statement-eq-ok}
use quarkgate.Store.Balance.{set_user_balance_self}
use quarkgate.Store.Credits.{
  ledger_balance, reconcile_user_balance, set_user_balance_from_ledger, update_balance,
}
use quarkgate.Store.Credits.Steps.{From-select_balance, update_balance-eq-ok, with_balance}
use quarkgate.Store.From.{From, From-pure, From-statement}
use quarkgate.Store.Rows.{find_user, sum_amounts}
use quarkgate.World.{World, on_db}

-- What ReconcileUserBalance reads.
record Read (id : Uuid) (t : Tables) (p : ℤ × ℤ) (t' : Tables) : Type 0 where
  before : User
  found : find_user id t.users ≡ some before
  cached : p.0 ≡ before.balance
  ledger : p.1 ≡ sum_amounts id t.ledger
  tables : t' ≡ t

pub ledger_balance-eq-ok :
    (id : Uuid) (t : Tables) (total : ℤ) (t' : Tables)
    → ◌≡◌ {A = Result ℤ × Tables}
        (
          (if in_int64 (sum_amounts id t.ledger)
              then ok (sum_amounts id t.ledger)
              else err out_of_range),
          t,
        )
        (ok total, t')
    → (total ≡ sum_amounts id t.ledger) × (t' ≡ t)
ledger_balance-eq-ok id t total t' h = ground arith

reconcile_user_balance-Read :
    (id : Uuid) (t : Tables) → From t (Read id t) (reconcile_user_balance id)
unfolding reconcile_user_balance ledger_balance
reconcile_user_balance-Read id t = From-select_balance id _ λ u found.
    From-statement _ _ λ total t' h.
      let (sum, same) = ledger_balance-eq-ok id t total t' h in
      From-pure _ (record { before = u; found = found; cached = refl; ledger = sum; tables = same })

-- A call on the database that succeeded.
on_db-eq-ok :
    {A : Type 0} (m : Exec Db A) (w : World) {a : A} {w₁ : World}
    → on_db m w ≡ (ok a, w₁)
    → m w.db ≡ (ok a, w₁.db)
on_db-eq-ok {A} m w h = ap (λ (r : Result A × World). (r.0, r.1.db)) h

-- No drift: the balance is the sum already.
kept :
    (id : Uuid) (t t₁ t' : Tables) (p : ℤ × ℤ) (u : User)
    → Read id t p t₁
    → t₁ ≡ t'
    → p.0 ≡ p.1
    → find_user id t'.users ≡ some u
    → u.balance ≡ sum_amounts id t'.ledger
kept id t t₁ t' p u d same equal found =
    let all : t' ≡ t = sym same ∙ d.tables in
    let own : d.before ≡ u = ground (arith, d.found, rw all at found) in
    rw (all, ← own) (sym d.cached ∙ equal ∙ d.ledger)

-- A drift: the sum is written.
fixed :
    (id : Uuid) (t : Tables) (db₁ db₂ : Db) (t' : Tables) (p : ℤ × ℤ) (u : User)
    → Read id t p db₁.tables
    → (a : Unit {0}) → db₂.tables ≡ t'
    → set_user_balance_from_ledger id p.1 db₁ ≡ (ok a, db₂)
    → find_user id t'.users ≡ some u
    → u.balance ≡ sum_amounts id t'.ledger
unfolding set_user_balance_from_ledger
fixed id t db₁ db₂ t' p u d a same wrote found =
    let there : find_user id db₁.tables.users ≡ some d.before = rw d.tables d.found in
    let (nonneg, written) =
      update_balance-eq-ok id p.1 db₁.tables a db₂.tables there
        (statement-eq-ok (update_balance id p.1) db₁ wrote) in
    let all : t' ≡ with_balance db₁.tables id p.1 =
      sym same ∙ sym (ap (λ (r : Unit {0} × Tables). r.1) written) in
    set_user_balance_self id p.1 db₁.tables.now db₁.tables.users there
      (ap (λ (x : Tables). find_user id x.users) (sym all) ∙ found)
    ∙ d.ledger
    ∙ ap (sum_amounts id)
        (ap (λ (x : Tables). x.ledger) (sym d.tables) ∙ ap (λ (x : Tables). x.ledger) (sym all))

module _ (show_uuid : Uuid → Text) (format_int : ℤ → Text) where
  -- After a reconcile-user that succeeds, the user's balance is the sum of the user's ledger rows,
  -- whatever it was before.
  pub reconcile_user-balanced :
      (id : Uuid) (w : World) {totals : ℤ × ℤ} {w' : World} (u : User)
      → reconcile_user show_uuid format_int id w ≡ (ok totals, w')
      → find_user id w'.db.tables.users ≡ some u
      → u.balance ≡ sum_amounts id w'.db.tables.ledger
  unfolding reconcile_user
  reconcile_user-balanced id w {totals} {w'} u h found =
      let (p, w₁, read, rest) = bind-eq-ok (on_db (reconcile_user_balance id)) _ w h in
      let d =
        (reconcile_user_balance-Read id w.db.tables).at w.db refl p w₁.db
          (on_db-eq-ok (reconcile_user_balance id) w read) in
      elim (Bool-cases (beq_ℤ p.0 p.1)) [
        | inl equal ↦
            let same : w₁.db.tables ≡ w'.db.tables =
              ap (λ (r : Result (ℤ × ℤ) × World). r.1.db.tables) (rw equal at rest) in
            kept id w.db.tables w₁.db.tables w'.db.tables p u d same ((beq_ℤ_iff p.0 p.1).0 equal)
              found
        | inr drifted ↦
            let (a, w₂, wrote, done) =
              bind-eq-ok (on_db (set_user_balance_from_ledger id p.1)) _ w₁ (rw drifted at rest) in
            let same : w₂.db.tables ≡ w'.db.tables =
              ap (λ (r : Result (ℤ × ℤ) × World). r.1.db.tables) done in
            fixed id w.db.tables w₁.db w₂.db w'.db.tables p u d a same
              (on_db-eq-ok (set_user_balance_from_ledger id p.1) w₁ wrote) found
      ]
