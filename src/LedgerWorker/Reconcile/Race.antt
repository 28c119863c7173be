-- ===== src/LedgerWorker/Reconcile/Race.antt =====
-- runReconciliation of cmd/ledger-worker/main.go where a hold comes between its two statements for a
-- user.
use quarkgate.Exec.{Result, bind-eq-ok, ok}
use quarkgate.LedgerWorker.Reconcile.{fix_row}
use quarkgate.LedgerWorker.Reconcile.Sound.{ledger_balance-IsSound, ledger_balance-Sum}
use quarkgate.Models.{User, Uuid}
use quarkgate.Prelude.{
  InInt64, Text, ap, beq_ℤ, false, int_laws, refl, some, subst, sym, true, ℤ, ◌+ℤ◌, ◌∙◌, ◌≡◌, arith,
  ◌==◌, nat_eq, text_eq, int_eq,
}
use quarkgate.Store.{Db, Tables, statement-eq-ok}
use quarkgate.Store.Balance.{IsSound, set_user_balance_self}
use quarkgate.Store.Balance.Amounts.{hold_amounts}
use quarkgate.Store.Balance.Sums.{sum_amounts-with_row}
use quarkgate.Store.Credits.{
  apply_hold, ledger_balance, set_user_balance_from_ledger, update_balance,
}
use quarkgate.Store.Credits.Effects.{apply_hold-HoldDone}
use quarkgate.Store.Credits.Steps.{update_balance-eq-ok, with_balance}
use quarkgate.Store.Rows.{find_user, find_user-set, sum_amounts}
use quarkgate.World.{World, on_db}

-- A hold that succeeded takes its amount off the sum, and leaves the user there.
apply_hold-sum :
    (user : Uuid) (amount : ℤ) (request : Uuid) (key : Text) (db : Db) {b : ℤ} {db' : Db}
    → InInt64 amount
    → IsSound db.tables
    → apply_hold user amount request key db ≡ (ok b, db')
    → (sum_amounts user db'.tables.ledger +ℤ amount ≡ sum_amounts user db.tables.ledger)
      × ((v : User) × (find_user user db'.tables.users ≡ some v))
apply_hold-sum user amount request key db {b} {db'} fits s e =
    let d = (apply_hold-HoldDone db.tables user amount request key).at db refl b db' e in
    let (fb, nb) = s.bounded user d.before d.found in
    let (exact, row) =
      hold_amounts d.before.balance amount fb nb fits d.covered (rw (← d.balance) d.nonneg) in
    let own : (user == user) ≡ true = ground arith in
    (
      rw (d.tables, sum_amounts-with_row, row, own) (omega int_laws),
      (
        record d.before { balance = b; updated_at = db.tables.now },
        rw (d.tables, find_user-set user user b db.tables.now db.tables.users, own, d.found) refl,
      ),
    )

-- Writing a sum sets the balance of a user who is there to it, and no ledger row.
set_user_balance_from_ledger-eq-ok :
    (user : Uuid) (total : ℤ) (db : Db) {a : Unit {0}} {db' : Db} (v u : User)
    → find_user user db.tables.users ≡ some v
    → set_user_balance_from_ledger user total db ≡ (ok a, db')
    → find_user user db'.tables.users ≡ some u
    → (u.balance ≡ total) × (db'.tables.ledger ≡ db.tables.ledger)
unfolding set_user_balance_from_ledger
set_user_balance_from_ledger-eq-ok user total db {a} {db'} v u there wrote found =
    let (nonneg, written) =
      update_balance-eq-ok user total db.tables a db'.tables there
        (statement-eq-ok (update_balance user total) db wrote) in
    let all : with_balance db.tables user total ≡ db'.tables =
      ap (λ (r : Unit {0} × Tables). r.1) written in
    (
      set_user_balance_self user total db.tables.now db.tables.users there
          (ap (λ (x : Tables). find_user user x.users) all ∙ found),
      ap (λ (x : Tables). x.ledger) (sym all),
    )

module _ (show_uuid : Uuid → Text) (format_int : ℤ → Text) where
  -- Where the credit tables agree when the reconciliation reads a user's sum, a hold of the user then
  -- succeeds, and the sum is written with auto-fix, since a balance that was read before differs from
  -- it: the user's balance is above the sum of the ledger by the amount held.
  pub fix_row-drifts :
      (user request : Uuid) (amount cached total b : ℤ) (key : Text) (w : World) {db₁ db₂ : Db}
      {a : Unit {0}} {w' : World} (u : User)
      → InInt64 amount
      → IsSound w.db.tables
      → ledger_balance user w.db ≡ (ok total, db₁)
      → beq_ℤ total cached ≡ false
      → apply_hold user amount request key db₁ ≡ (ok b, db₂)
      → fix_row show_uuid format_int true user cached total (record w { db = db₂ }) ≡ (ok a, w')
      → find_user user w'.db.tables.users ≡ some u
      → u.balance ≡ sum_amounts user w'.db.tables.ledger +ℤ amount
  unfolding fix_row
  fix_row-drifts user request amount cached total b key w {db₁} {db₂} {a} {w'} u fits s read drift
        held wrote found =
      let (_, sum) = ledger_balance-Sum user w.db total db₁ read in
      let sound : IsSound db₁.tables =
        subst (λ (x : Result ℤ × Db). IsSound x.1.tables) read
          (ledger_balance-IsSound user w.db s) in
      let (moved, (v, there)) = apply_hold-sum user amount request key db₁ fits sound held in
      let (_, w₂, set, rest) =
        bind-eq-ok (on_db (set_user_balance_from_ledger user total)) _ (record w { db = db₂ })
          (rw drift at wrote) in
      let same : w₂.db.tables ≡ w'.db.tables =
        ap (λ (r : Result (Unit {0}) × World). r.1.db.tables) rest in
      let (now_total, kept) =
        set_user_balance_from_ledger-eq-ok user total db₂ v u there
          (ap (λ (r : Result (Unit {0}) × World). (r.0, r.1.db)) set)
          (ap (λ (x : Tables). find_user user x.users) same ∙ found) in
      now_total
      ∙ sum
      ∙ sym moved
      ∙ ap (λ l. sum_amounts user l +ℤ amount) (sym kept ∙ ap (λ (x : Tables). x.ledger) same)
