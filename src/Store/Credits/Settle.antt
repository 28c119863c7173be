-- ===== src/Store/Credits/Settle.antt =====
-- The tables after a CaptureAndRelease of internal/store/store.go that succeeded.
use quarkgate.Exec.{Result}
use quarkgate.Models.{TxnType, UsageLog, User, Uuid}
use quarkgate.Prelude.{Text, ap, codes, neg, some, sym, ℤ, ◌≡◌, pos, ◌≤ℤ◌}
use quarkgate.Store.{Tables}
use quarkgate.Store.Credits.{LedgerTxnIds, capture_and_release, close_usage_log, settlement_key}
use quarkgate.Store.Credits.Entries.{
  From-insert_if_positive, IsFresh, after_entry, users-with_entry, with_entry,
}
use quarkgate.Store.Credits.Steps.{From-select_balance, From-update_balance, with_balance}
use quarkgate.Store.From.{From, From-pure, From-statement, From-transaction}
use quarkgate.Store.Rows.{find_user}

-- The balance after the capture, and after the release.
abbrev pub captured_balance : ℤ → ℤ → ℤ
captured_balance captured b = after_entry captured (neg captured) b

abbrev pub settled_balance : ℤ → ℤ → ℤ → ℤ
settled_balance captured released b = after_entry released released (captured_balance captured b)

-- The tables with the capture's row, and with both rows.
abbrev pub with_capture : Tables → Uuid → Uuid → ℤ → Text → ℤ → Tables
with_capture t user request captured key b =
    with_entry t user TxnType.capture captured (neg captured) b request key

abbrev pub with_release : Tables → Uuid → Uuid → ℤ → ℤ → Text → Text → ℤ → Tables
with_release t user request captured released capture_key release_key b =
    with_entry (with_capture t user request captured capture_key b) user TxnType.release released
      released (captured_balance captured b) request release_key

-- A settlement that succeeded found the user, and wrote what was to be captured and released.
pub record SettleDone (t : Tables) (user request : Uuid) (captured released : ℤ) (usage : UsageLog)
    (capture_key release_key : Text) (ids : LedgerTxnIds) (t' : Tables) : Type 0 where
  pub before : User
  pub found : find_user user t.users ≡ some before
  pub nonneg : pos 0 ≤ℤ (settled_balance captured released before.balance)
  pub fresh_capture : IsFresh t captured capture_key
  pub fresh_release :
      IsFresh (with_capture t user request captured capture_key before.balance) released release_key
  pub tables :
      t'
      ≡ (close_usage_log request usage captured ids (
          with_balance
            (with_release t user request captured released capture_key release_key before.balance)
            user
            (settled_balance captured released before.balance))).1

module _ (show_uuid : Uuid → Text) where
  pub capture_and_release-SettleDone :
      (t : Tables) (user request : Uuid) (captured released : ℤ) (usage : UsageLog)
      (client_key : Text)
      → From t
          (SettleDone t user request captured released usage
            (settlement_key show_uuid (codes "capture-") request client_key)
            (settlement_key show_uuid (codes "release-") request client_key))
          (capture_and_release show_uuid user request captured released usage client_key)
  unfolding capture_and_release
  capture_and_release-SettleDone t user request captured released usage client_key =
      From-transaction _ (
        From-select_balance user _ λ u found.
          From-insert_if_positive _ _ _ _ _ _ _ _ _ λ fresh_capture.
            From-insert_if_positive _ _ _ _ _ _ _ _ _ λ fresh_release.
              From-update_balance user _ _ {u = u} (rw (users-with_entry, users-with_entry) found)
                λ nonneg. From-statement _ _ λ a t' closed. From-pure _ (record {
                  before = u;
                  found = found;
                  nonneg = nonneg;
                  fresh_capture = fresh_capture;
                  fresh_release = fresh_release;
                  tables = ap (λ (r : Result (Unit {0}) × Tables). r.1) (sym closed);
                }))
