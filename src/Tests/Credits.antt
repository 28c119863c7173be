-- ===== src/Tests/Credits.antt =====
-- The theorems on credits, at a user with one deposit.
use quarkgate.Exec.{ok}
use quarkgate.Json.{Fields}
use quarkgate.Metering.Hold.{capture_release, capture_release_split}
use quarkgate.Models.{LedgerTransaction, TxnType, User, Uuid, UsageLog, UsageStatus}
use quarkgate.Prelude.{
  Bool-cases, [], arith, codes, false, inl, inr, none, pos, ◌==◌, ◌∷◌, InInt64, int_laws, refl,
  some, subst, ◌+ℤ◌, ◌≡◌, ◌≤ℤ◌, Text, neg, wrap64, ℤ, ◌-ℤ◌, if◌then◌else◌, leb_ℤ, ltb_ℤ, true,
  nat_eq, text_eq, int_eq,
}
use quarkgate.Store.{Db, Tables, statement, transaction}
use quarkgate.Store.Atomic.{apply_hold_once, capture_and_release_once}
use quarkgate.Store.Balance.{IsSound}
use quarkgate.Store.Balance.Operations.{apply_hold-IsSound, capture_and_release-IsSound}
use quarkgate.Store.Balance.Settlement.{hold_settle-balance}
use quarkgate.Store.Credits.{
  LedgerTxnIds, apply_hold, capture_and_release, close_usage_log, insert_if_positive,
  insert_transaction, select_balance, settlement_key, update_balance,
}
use quarkgate.Store.Rows.{find_user, sum_amounts}
use quarkgate.Store.Usage.{add_to_summary, burn_rate_24h, summarize, usage_summary_24h}
use quarkgate.Store.Usage.Summary.{charged, charged_by, usage_summary_24h-burn_rate_24h}

abbrev pub alice : User
alice = record {
  id = 1;
  email = codes "alice";
  balance = pos 5000;
  created_at = 10;
  updated_at = 10;
}

abbrev first_deposit : LedgerTransaction
first_deposit = record {
  id = 2;
  user_id = 1;
  type = TxnType.deposit;
  amount = pos 5000;
  balance_after = pos 5000;
  reference_type = codes "admin";
  reference_id = none;
  idempotency_key = codes "first";
  created_at = 10;
}

abbrev tables : Tables
tables = record {
  users = alice ∷ [];
  keys = [];
  providers = [];
  usage_logs = [];
  ledger = first_deposit ∷ [];
  sessions = [];
  vault = [];
  migrations = [];
  next_uuid = 3;
  now = 20;
}

abbrev pub database : Db
database = record { tables = tables; outage = λ n. false; statements = 0 }

only_alice : (i : Uuid) (u : User) → find_user i (alice ∷ []) ≡ some u → (1 ≡ i) × (alice ≡ u)
only_alice i u e = elim (Bool-cases (1 == i)) [
  | inl same ↦ (ground arith, ground (arith, e, same))
  | inr other ↦ ground (arith, e, other)
]

alice_balanced : alice.balance ≡ sum_amounts 1 tables.ledger
unfolding ◌+ℤ◌
alice_balanced = refl

five_thousand-InInt64 : InInt64 (pos 5000)
five_thousand-InInt64 = (omega int_laws, omega int_laws)

five_thousand_nonneg : pos 0 ≤ℤ pos 5000
five_thousand_nonneg = omega int_laws

pub tables-IsSound : IsSound tables
tables-IsSound = record {
  balanced = λ i u e.
      let (is_1, is_alice) = only_alice i u e in
      subst (λ j. u.balance ≡ sum_amounts j tables.ledger) is_1
        (subst (λ (v : User). v.balance ≡ sum_amounts 1 tables.ledger) is_alice alice_balanced);
  bounded = λ i u e.
      subst (λ (v : User). InInt64 v.balance × (pos 0 ≤ℤ v.balance)) (only_alice i u e).1
        (five_thousand-InInt64, five_thousand_nonneg);
}

-- A hold of 2000.
abbrev after_hold : Db
after_hold = (apply_hold 1 (pos 2000) 7 (codes "hold-7") database).1

hold_run : apply_hold 1 (pos 2000) 7 (codes "hold-7") database ≡ (ok (pos 3000), after_hold)
unfolding apply_hold transaction statement select_balance update_balance insert_transaction wrap64
    ◌-ℤ◌ ◌+ℤ◌ neg
hold_run = refl

abbrev usage : UsageLog
usage = record {
  id = 8;
  user_id = 1;
  key_id = 9;
  provider_slug = codes "openrouter";
  operation = codes "chat";
  request_id = 7;
  status = UsageStatus.completed;
  raw_usage = Fields.empty;
  normalized_usage = Fields.empty;
  credits_reserved = pos 2000;
  credits_captured = pos 500;
  latency_ms = none;
  trace_id = [];
  started_at = 15;
  completed_at = none;
  capture_txn = none;
  release_txn = none;
}

abbrev show : Uuid → Text
show n = n ∷ []

abbrev parts : ℤ × ℤ
parts = capture_release (pos 2000) (pos 500)

abbrev after_settle : Db
after_settle = (capture_and_release show 1 7 parts.0 parts.1 usage (codes "k") after_hold).1

settle_ids : LedgerTxnIds
settle_ids = record { capture_txn_id = some 4; release_txn_id = some 5 }

settle_run :
    capture_and_release show 1 7 parts.0 parts.1 usage (codes "k") after_hold
    ≡ (ok settle_ids, after_settle)
unfolding settle_ids capture_and_release capture_release insert_if_positive settlement_key
    close_usage_log apply_hold transaction statement select_balance update_balance
    insert_transaction wrap64 ◌-ℤ◌ ◌+ℤ◌ neg
settle_run = refl

-- The witnesses.

apply_hold-IsSound_example : IsSound after_hold.tables
apply_hold-IsSound_example =
    apply_hold-IsSound 1 (pos 2000) 7 (codes "hold-7") database (omega int_laws, omega int_laws)
      tables-IsSound

captured_part : parts.0 ≡ pos 500
unfolding capture_release wrap64 ◌-ℤ◌ ◌+ℤ◌ neg
captured_part = refl

released_part : parts.1 ≡ pos 1500
unfolding capture_release wrap64 ◌-ℤ◌ ◌+ℤ◌ neg
released_part = refl

capture_and_release-IsSound_example : IsSound after_settle.tables
capture_and_release-IsSound_example =
    capture_and_release-IsSound show 1 7 parts.0 parts.1 usage (codes "k") after_hold
      (rw captured_part (omega int_laws, omega int_laws))
      (rw released_part (omega int_laws, omega int_laws))
      (apply_hold-IsSound 1 (pos 2000) 7 (codes "hold-7") database (omega int_laws, omega int_laws)
        tables-IsSound)

abbrev settled_alice : User
settled_alice = record alice { balance = pos 4000; updated_at = 20 }

settled_found : find_user 1 after_settle.tables.users ≡ some settled_alice
unfolding capture_and_release capture_release insert_if_positive settlement_key close_usage_log
    apply_hold transaction statement select_balance update_balance insert_transaction wrap64 ◌-ℤ◌
    ◌+ℤ◌ neg
settled_found = refl

hold_settle-balance_example : pos 4000 ≡ pos 5000 -ℤ parts.0 -ℤ parts.0
hold_settle-balance_example =
    hold_settle-balance show 1 7 (pos 2000) (pos 500) (codes "hold-7") (codes "k") usage database
      after_hold after_settle alice tables-IsSound refl (omega int_laws, omega int_laws)
      (omega int_laws, omega int_laws) (omega int_laws) (omega int_laws) hold_run settle_run
      settled_alice settled_found

capture_release_split_example :
    (parts.0 ≡ (if leb_ℤ (pos 500) (pos 2000) then pos 500 else pos 2000))
    × (parts.0 +ℤ parts.1 ≡ pos 2000)
    × (pos 0 ≤ℤ parts.0)
    × (pos 0 ≤ℤ parts.1)
capture_release_split_example =
    capture_release_split (pos 2000) (pos 500) (omega int_laws, omega int_laws)
      (omega int_laws, omega int_laws) (omega int_laws) (omega int_laws)

apply_hold_once_example :
    ¬ (apply_hold 3 (pos 1) 4 (codes "hold-7") after_hold ≡ (ok (pos 5), database))
apply_hold_once_example =
    apply_hold_once 1 3 (pos 2000) (pos 1) 7 4 (codes "hold-7") database (pos 5) database hold_run

some_captured : ltb_ℤ (pos 0) parts.0 ≡ true
some_captured = rw captured_part refl

capture_and_release_once_example : ¬ (
    capture_and_release show 1 7 parts.0 (pos 1) usage (codes "k") after_settle
    ≡ (ok settle_ids, database))
capture_and_release_once_example =
    capture_and_release_once show 1 7 parts.0 parts.1 parts.0 (pos 1) usage usage (codes "k")
      after_hold settle_ids database some_captured some_captured settle_run

abbrev settled_db : Db
settled_db = record database { tables = record database.tables { usage_logs = usage ∷ usage ∷ [] } }

summary_run : usage_summary_24h 1 settled_db ≡ (
  ok (record { provider_slug = codes "openrouter"; total = pos 1000; count = 2 } ∷ []),
  record settled_db { statements = 1 },
)
unfolding usage_summary_24h statement summarize add_to_summary ◌+ℤ◌
summary_run = refl

burn_run : burn_rate_24h 1 settled_db ≡ (ok (pos 1000), record settled_db { statements = 1 })
unfolding burn_rate_24h statement ◌+ℤ◌
burn_run = refl

usage_summary_24h-burn_rate_24h_example :
    (pos 1000 ≡ charged 1 20 (usage ∷ usage ∷ []))
    × (pos 1000 +ℤ pos 0 ≡ pos 1000)
    × (pos 1000 +ℤ pos 0 ≡ charged_by (codes "openrouter") 1 20 (usage ∷ usage ∷ []))
usage_summary_24h-burn_rate_24h_example =
    usage_summary_24h-burn_rate_24h 1 settled_db (codes "openrouter") summary_run burn_run
