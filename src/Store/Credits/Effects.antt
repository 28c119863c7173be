-- ===== src/Store/Credits/Effects.antt =====
-- The tables after a hold or a deposit of internal/store/store.go that succeeded.
use quarkgate.Models.{TxnType, User, Uuid}
use quarkgate.Prelude.{
  Text, arith, codes, false, neg, refl, some, wrap64, ℤ, ◌-ℤ◌, ◌≡◌, ◌≤ℤ◌, InInt64, ltb_ℤ, none, not,
  ◌+ℤ◌, pos,
}
use quarkgate.Store.{Tables}
use quarkgate.Store.Credits.{apply_hold, deposit_credits}
use quarkgate.Store.Credits.Steps.{
  From-insert_transaction, From-select_balance, From-update_balance, new_row, with_balance,
  with_row, From-add_to_balance,
}
use quarkgate.Store.From.{From, From-check, From-pure, From-transaction}
use quarkgate.Store.Rows.{find_user, has_idempotency_key}

-- A hold that succeeded found the user, was covered, and wrote a balance and a row.
pub record HoldDone (t : Tables) (user : Uuid) (amount : ℤ) (request : Uuid) (key : Text) (b : ℤ)
    (t' : Tables) : Type 0 where
  pub before : User
  pub found : find_user user t.users ≡ some before
  pub covered : amount ≤ℤ before.balance
  pub balance : b ≡ wrap64 (before.balance -ℤ amount)
  pub nonneg : pos 0 ≤ℤ b
  pub fresh : has_idempotency_key key t.ledger ≡ false
  pub tables :
      t'
      ≡ with_row (with_balance t user b) (
          new_row t user TxnType.hold
            (wrap64 (neg amount))
            b
            (codes "usage_log")
            (some request)
            key)

pub apply_hold-HoldDone :
    (t : Tables) (user : Uuid) (amount : ℤ) (request : Uuid) (key : Text)
    → From t (HoldDone t user amount request key) (apply_hold user amount request key)
unfolding apply_hold
apply_hold-HoldDone t user amount request key = From-transaction _ (
    From-select_balance user _ λ u found. From-check (not (ltb_ℤ u.balance amount)) _ _ λ covered.
      From-update_balance user _ _ found λ nonneg. From-insert_transaction _ _ _ _ _ _ _ _ λ fresh.
        From-pure _ (record {
          before = u;
          found = found;
          covered = ground arith;
          balance = refl;
          nonneg = nonneg;
          fresh = fresh;
          tables = refl;
        }))

-- A deposit that succeeded found the user, and wrote a balance and a row.
pub record DepositDone (t : Tables) (user : Uuid) (amount : ℤ) (key : Text) (b : ℤ) (t' : Tables)
    : Type 0 where
  pub before : User
  pub found : find_user user t.users ≡ some before
  pub balance : b ≡ before.balance +ℤ amount
  pub fits : InInt64 b
  pub nonneg : pos 0 ≤ℤ b
  pub fresh : has_idempotency_key key t.ledger ≡ false
  pub tables :
      t'
      ≡ with_row
          (with_balance t user b)
          (new_row t user TxnType.deposit amount b (codes "admin") none key)

pub deposit_credits-DepositDone :
    (t : Tables) (user : Uuid) (amount : ℤ) (key : Text)
    → From t (DepositDone t user amount key) (deposit_credits user amount key)
unfolding deposit_credits
deposit_credits-DepositDone t user amount key = From-transaction _ (
    From-add_to_balance user amount _ λ u found fits nonneg.
      From-insert_transaction _ _ _ _ _ _ _ _ λ fresh. From-pure _ (record {
        before = u;
        found = found;
        balance = refl;
        fits = fits;
        nonneg = nonneg;
        fresh = fresh;
        tables = refl;
      }))
