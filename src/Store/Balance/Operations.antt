-- ===== src/Store/Balance/Operations.antt =====
-- Every credit operation of internal/store/store.go keeps the invariant of the tables, whether it
-- succeeds or fails, and whatever statement the database fails at.
use quarkgate.Exec.{Exec, Result, err, ok}
use quarkgate.Models.{UsageLog, Uuid, Time, TxnType}
use quarkgate.Prelude.{
  InInt64, Text, int_laws, neg, refl, wrap64, wrap64-InInt64, ℤ, ◌+ℤ◌, ◌∙◌, ◌≡◌, ap,
}
use quarkgate.Store.{Db, Tables, transaction, transaction-eq-err}
use quarkgate.Store.Balance.{IsSound, IsSound-move}
use quarkgate.Store.Balance.Amounts.{capture_amounts, entry_amount, hold_amounts, release_amounts}
use quarkgate.Store.Balance.Sums.{sum_amounts-with_entry, sum_amounts-with_row, two_moves}
use quarkgate.Store.Credits.{
  LedgerTxnIds, apply_hold, close_usage_log, deposit_credits, capture_and_release,
}
use quarkgate.Store.Credits.Effects.{
  DepositDone, HoldDone, apply_hold-HoldDone, deposit_credits-DepositDone,
}
use quarkgate.Store.Credits.Entries.{users-with_entry}
use quarkgate.Store.Credits.Settle.{
  SettleDone, settled_balance, capture_and_release-SettleDone, captured_balance, with_capture,
  with_release,
}
use quarkgate.Store.Credits.Steps.{with_balance}
use quarkgate.Store.From.{From, From-weaken}
use quarkgate.Store.Rows.{set_user_balance}

-- A transaction keeps what its success gives.
pub transaction_keeps :
    {A : Type 0} (P : Tables → Type 0) (m : Exec Db A) (db : Db)
    → From db.tables (λ _ t'. P t') (transaction m)
    → P db.tables
    → P (transaction m db).1.tables
transaction_keeps {A} P m db from before = by_result (transaction m db) refl
  where
    by_result : (r : Result A × Db) → transaction m db ≡ r → P r.1.tables
    by_result (ok a, db') e = from.at db refl a db' e
    by_result (err x, db') e = rw (transaction-eq-err m db e) before

pub hold-IsSound :
    (t : Tables) (user : Uuid) (amount : ℤ) (request : Uuid) (key : Text) (b : ℤ) (t' : Tables)
    → InInt64 amount
    → IsSound t
    → HoldDone t user amount request key b t'
    → IsSound t'
hold-IsSound t user amount request key b t' fits s d =
    let (fb, nb) = s.bounded user d.before d.found in
    let (exact, row) =
      hold_amounts d.before.balance amount fb nb fits d.covered (rw (← d.balance) d.nonneg) in
    rw d.tables (
      IsSound-move t _ user b (wrap64 (neg amount)) t.now refl
        (λ i. sum_amounts-with_row i (with_balance t user b) _) d.found
        (rw (d.balance, exact, row) (omega int_laws)) (rw d.balance (wrap64-InInt64 _)) d.nonneg s)

-- A hold keeps the balances equal to the ledger sums and not negative, for every int64 amount,
-- whether it succeeds or fails.
pub apply_hold-IsSound :
    (user : Uuid) (amount : ℤ) (request : Uuid) (key : Text) (db : Db)
    → InInt64 amount
    → IsSound db.tables
    → IsSound (apply_hold user amount request key db).1.tables
unfolding apply_hold
apply_hold-IsSound user amount request key db fits s =
    transaction_keeps IsSound _ db
      (From-weaken _ _ (λ b t' d. hold-IsSound _ user amount request key b t' fits s d)
        (apply_hold-HoldDone db.tables user amount request key))
      s

deposit-IsSound :
    (t : Tables) (user : Uuid) (amount : ℤ) (key : Text) (b : ℤ) (t' : Tables)
    → IsSound t
    → DepositDone t user amount key b t'
    → IsSound t'
deposit-IsSound t user amount key b t' s d = rw d.tables (
    IsSound-move t _ user b amount t.now refl
      (λ i. sum_amounts-with_row i (with_balance t user b) _) d.found d.balance d.fits d.nonneg s)

-- A deposit keeps the balances equal to the ledger sums and not negative, also a negative one.
pub deposit_credits-IsSound :
    (user : Uuid) (amount : ℤ) (key : Text) (db : Db)
    → IsSound db.tables
    → IsSound (deposit_credits user amount key db).1.tables
unfolding deposit_credits
deposit_credits-IsSound user amount key db s =
    transaction_keeps IsSound _ db
      (From-weaken _ _ (λ b t' d. deposit-IsSound _ user amount key b t' s d)
        (deposit_credits-DepositDone db.tables user amount key))
      s

module _ (t : Tables) (user request : Uuid) (captured released : ℤ) (usage : UsageLog)
    (capture_key release_key : Text) (ids : LedgerTxnIds) (t' : Tables)
    (fits_captured : InInt64 captured) (fits_released : InInt64 released) (s : IsSound t)
    (d : SettleDone t user request captured released usage capture_key release_key ids t') where
  -- The rows of a settlement sum up to the change of the balance.
  pub settled_amounts :
      (settled_balance captured released d.before.balance
        ≡ d.before.balance
          +ℤ (entry_amount captured (neg captured) +ℤ entry_amount released released))
      × InInt64 (settled_balance captured released d.before.balance)
  settled_amounts =
      let (fb, nb) = s.bounded user d.before d.found in
      let (first, f₁) = capture_amounts d.before.balance captured fb nb fits_captured in
      let (second, f₂) = release_amounts _ released f₁ fits_released d.nonneg in
      (second ∙ rw first (omega int_laws), f₂)

  pub settled_at : Time
  settled_at =
      (with_release t user request captured released capture_key release_key d.before.balance).now

  pub settle-users :
      t'.users
      ≡ set_user_balance user
          (settled_balance captured released d.before.balance)
          settled_at
          t.users
  unfolding close_usage_log settled_at
  settle-users = rw d.tables (
      ap (set_user_balance user (settled_balance captured released d.before.balance) settled_at) (
        users-with_entry (with_capture t user request captured capture_key d.before.balance) user
          TxnType.release released released (captured_balance captured d.before.balance) request
          release_key
        ∙ users-with_entry t user TxnType.capture captured (neg captured) d.before.balance request
            capture_key))

  settle-IsSound : IsSound t'
  unfolding close_usage_log
  settle-IsSound =
      IsSound-move t _ user (settled_balance captured released d.before.balance)
        (entry_amount captured (neg captured) +ℤ entry_amount released released) settled_at
        settle-users
        (λ i. rw (d.tables, sum_amounts-with_entry, sum_amounts-with_entry, two_moves) refl) d.found
        settled_amounts.0 settled_amounts.1 d.nonneg s

-- A settlement keeps the balances equal to the ledger sums and not negative, for all int64 amounts,
-- whether it succeeds or fails.
pub capture_and_release-IsSound :
    (show_uuid : Uuid → Text) (user request : Uuid) (captured released : ℤ) (usage : UsageLog)
    (client_key : Text) (db : Db)
    → InInt64 captured
    → InInt64 released
    → IsSound db.tables
    → IsSound
        (capture_and_release show_uuid user request captured released usage client_key db).1.tables
unfolding capture_and_release
capture_and_release-IsSound show_uuid user request captured released usage client_key db fc fr s =
    transaction_keeps IsSound _ db
      (From-weaken _ _
        (λ ids t' d. settle-IsSound _ user request captured released usage _ _ ids t' fc fr s d)
        (capture_and_release-SettleDone show_uuid db.tables user request captured released usage
          client_key))
      s
