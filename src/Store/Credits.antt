-- ===== src/Store/Credits.antt =====
-- The credit operations of internal/store/store.go: DepositCredits, ApplyHold, CaptureAndRelease,
-- LedgerBalance, ReconcileUserBalance, SetUserBalanceFromLedger, IsIdempotencyUsed and
-- ListLedgerByReference.
pub mod Steps
pub mod Effects
pub mod Entries
pub mod Settle
use quarkgate.Exec.{
  Exec, check, check_violation, err, foreign_key_violation, insufficient, no_rows, ok, out_of_range,
  pure, unique_violation, ◌>>=◌, ◌>>◌,
}
use quarkgate.Models.{LedgerTransaction, TxnType, UsageLog, Uuid}
use quarkgate.Prelude.{
  Bool, List, Option, Text, [], codes, if◌then◌else◌, in_int64, is_some, ltb_ℤ, neg, none, not, pos,
  select, some, update_where, wrap64, ℤ, ◌++◌, ◌+ℤ◌, ◌+◌, ◌-ℤ◌, ◌==◌, ◌∷◌, nat_eq, text_eq, int_eq,
}
use quarkgate.Store.{Db, Tables, statement, transaction}
use quarkgate.Store.Rows.{
  find_user, has_idempotency_key, is_reference, set_user_balance, sum_amounts,
}

-- An `UPDATE` of a balance under the column's CHECK; no row with the id is no error.
abbrev pub write_balance : Uuid → ℤ → Exec Tables (Unit {0})
write_balance user v t =
    if is_some (find_user user t.users)
    then (if ltb_ℤ v (pos 0)
        then (err check_violation, t)
        else (ok tt, record t { users = set_user_balance user v t.now t.users }))
    else (ok tt, t)

-- `SELECT credit_balance_micro … FOR UPDATE`
unfoldable pub select_balance : Uuid → Exec Tables ℤ
select_balance user t = elim (find_user user t.users) [
  | none ↦ (err no_rows, t)
  | some u ↦ (ok u.balance, t)
]

unfoldable pub update_balance : Uuid → ℤ → Exec Tables (Unit {0})
update_balance = write_balance

-- `credit_balance_micro + $2 … RETURNING`, computed by the database, which refuses an overflow.
unfoldable pub add_to_balance : Uuid → ℤ → Exec Tables ℤ
add_to_balance user amount t = elim (find_user user t.users) [
  | none ↦ (err no_rows, t)
  | some u ↦
      let v = u.balance +ℤ amount in
      if in_int64 v
      then (if ltb_ℤ v (pos 0)
          then (err check_violation, t)
          else (ok v, record t { users = set_user_balance user v t.now t.users }))
      else (err out_of_range, t)
]

-- `INSERT INTO credit_ledger_transactions … RETURNING id`: the idempotency key is unique.
unfoldable pub insert_transaction :
    Uuid → TxnType → ℤ → ℤ → Text → Option Uuid → Text → Exec Tables Uuid
insert_transaction user type amount after ref_type ref key t =
    if has_idempotency_key key t.ledger
    then (err unique_violation, t)
    else if is_some (find_user user t.users)
    then (
      ok t.next_uuid,
      record t {
        ledger =
            t.ledger
            ++ record {
              id = t.next_uuid;
              user_id = user;
              type = type;
              amount = amount;
              balance_after = after;
              reference_type = ref_type;
              reference_id = ref;
              idempotency_key = key;
              created_at = t.now;
            }
              ∷ [];
        next_uuid = t.next_uuid + 1;
      },
    )
    else (err foreign_key_violation, t)

-- DepositCredits
unfoldable pub deposit_credits : Uuid → ℤ → Text → Exec Db ℤ
deposit_credits user amount key = transaction (do
  balance ← statement (add_to_balance user amount)
  statement (insert_transaction user TxnType.deposit amount balance (codes "admin") none key)
  pure balance)

-- ApplyHold
unfoldable pub apply_hold : Uuid → ℤ → Uuid → Text → Exec Db ℤ
apply_hold user amount request key = transaction (do
  balance ← statement (select_balance user)
  check (not (ltb_ℤ balance amount)) (insufficient balance)
  let new_balance = wrap64 (balance -ℤ amount)
  statement (update_balance user new_balance)
  statement (
      insert_transaction user TxnType.hold (wrap64 (neg amount)) new_balance (codes "usage_log")
        (some request) key)
  pure new_balance)

pub record LedgerTxnIds : Type 0 where
  pub capture_txn_id : Option Uuid
  pub release_txn_id : Option Uuid

-- One of the two conditional inserts of CaptureAndRelease: the new balance, and the row's id.
unfoldable pub insert_if_positive :
    Uuid → TxnType → ℤ → ℤ → ℤ → Uuid → Text → Exec Db (ℤ × Option Uuid)
insert_if_positive user type amount signed balance request key =
    if ltb_ℤ (pos 0) amount
    then (do
      let after = wrap64 (balance +ℤ signed)
      id ← statement (
          insert_transaction user type (wrap64 signed) after (codes "usage_log") (some request) key)
      pure (after, some id))
    else pure (balance, none)

-- The `UPDATE usage_logs` that closes a request; no row with the id is no error.
unfoldable pub close_usage_log : Uuid → UsageLog → ℤ → LedgerTxnIds → Exec Tables (Unit {0})
close_usage_log request usage captured ids t = (
  ok tt,
  record t {
    usage_logs =
        update_where (λ (l : UsageLog). l.request_id == request)
          (λ l. record l {
            status = usage.status;
            raw_usage = usage.raw_usage;
            normalized_usage = usage.normalized_usage;
            credits_captured = captured;
            latency_ms = usage.latency_ms;
            completed_at = some t.now;
            capture_txn = ids.capture_txn_id;
            release_txn = ids.release_txn_id;
          })
          t.usage_logs;
  },
)

-- The keys `capture-…` and `release-…`: of the client's key if there is one, else of the request.
unfoldable pub settlement_key : (Uuid → Text) → Text → Uuid → Text → Text
settlement_key show_uuid prefix request client_key =
    prefix ++ (if client_key == [] then show_uuid request else client_key)

module _ (show_uuid : Uuid → Text) where
  -- CaptureAndRelease
  unfoldable pub capture_and_release : Uuid → Uuid → ℤ → ℤ → UsageLog → Text → Exec Db LedgerTxnIds
  capture_and_release user request captured released usage client_key = transaction (do
    balance ← statement (select_balance user)
    (balance₁, capture_id) ←
        insert_if_positive user TxnType.capture captured (neg captured) balance request
          (settlement_key show_uuid (codes "capture-") request client_key)
    (balance₂, release_id) ←
        insert_if_positive user TxnType.release released released balance₁ request
          (settlement_key show_uuid (codes "release-") request client_key)
    statement (update_balance user balance₂)
    let ids : LedgerTxnIds = record { capture_txn_id = capture_id; release_txn_id = release_id }
    statement (close_usage_log request usage captured ids)
    pure ids)

-- LedgerBalance: the sum is exact in the database, and scanning it wants an int64.
unfoldable pub ledger_balance : Uuid → Exec Db ℤ
ledger_balance user = statement (λ t.
    let total = sum_amounts user t.ledger in
    (if in_int64 total then ok total else err out_of_range, t))

-- ReconcileUserBalance
unfoldable pub reconcile_user_balance : Uuid → Exec Db (ℤ × ℤ)
reconcile_user_balance user = do
  cached ← statement (select_balance user)
  ledger ← ledger_balance user
  pure (cached, ledger)

-- SetUserBalanceFromLedger
unfoldable pub set_user_balance_from_ledger : Uuid → ℤ → Exec Db (Unit {0})
set_user_balance_from_ledger user total = statement (update_balance user total)

-- IsIdempotencyUsed
unfoldable pub is_idempotency_used : Text → Exec Db Bool
is_idempotency_used key = statement (λ t. (ok (has_idempotency_key key t.ledger), t))

-- ListLedgerByReference; rows are stored in the order of their `created_at`.
unfoldable pub list_ledger_by_reference : Uuid → Exec Db (List LedgerTransaction)
list_ledger_by_reference request = statement (λ t.
    (ok (select (λ (x : LedgerTransaction). is_reference request x.reference_id) t.ledger), t))
