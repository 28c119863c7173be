-- ===== src/Metering/Worker/Settled.antt =====
-- What ProcessEvent of internal/metering/worker.go has done when it succeeds: the settlement of the
-- event's hold for the event's charge.
use quarkgate.Exec.{Result, ok, bind-eq-ok, failure, or_fail, ◌>>=◌}
use quarkgate.Json.{Fields}
use quarkgate.Metering.Hold.{capture_release}
use quarkgate.Metering.Normalize.{FloatOps}
use quarkgate.Metering.Worker.{
  Codec, Normalizer, WorkerConfig, charge_event, is_partial_event, settle_event, text_of,
  to_int64_of, usage_of, usage_status, normalized_usage_of, process_event,
}
use quarkgate.Metering.Worker.Kept.{SameCredits, after_settlement-SameCredits, charge_event-tables}
use quarkgate.Models.{UsageLog, Uuid, User}
use quarkgate.Prelude.{
  Bool-cases, List, [], find, inl, inr, refl, some, update_where, ◌==◌, ◌∷◌, ◌≡◌, Dict, Text, ap,
  true, ◌∙◌, codes, subst, ℤ, sym, Option, none, nat_eq, text_eq, int_eq,
}
use quarkgate.Store.{Tables}
use quarkgate.Store.Balance.{set_user_balance_self}
use quarkgate.Store.Credits.{LedgerTxnIds, capture_and_release, close_usage_log, settlement_key}
use quarkgate.Store.Credits.Entries.{users-with_entry}
use quarkgate.Store.Credits.Settle.{capture_and_release-SettleDone, settled_balance, with_release}
use quarkgate.Store.Rows.{find_user}
use quarkgate.World.{World, on_db}

-- The log of a request that was closed.
find-close :
    (request : Uuid) (f : UsageLog → UsageLog) (ls : List UsageLog) {l : UsageLog}
    → ((k : UsageLog) → (f k).request_id ≡ k.request_id)
    → find
        (λ (k : UsageLog). k.request_id == request)
        (update_where (λ (k : UsageLog). k.request_id == request) f ls)
      ≡ some l
    → (k : UsageLog) × (l ≡ f k)
find-close request f [] same e = cc e
find-close request f (k ∷ ls) same e = elim (Bool-cases (k.request_id == request)) [
  | inl own ↦
      let kept : ((f k).request_id == request) ≡ true = rw (same k) own in
      (k, cc (rw (own, kept) at e))
  | inr other ↦ find-close request f ls same (rw (other, other) at e)
]

module _ (ops : FloatOps) (codec : Codec) (driver : Normalizer) (cfg : WorkerConfig) where
  -- The two parts of the event's hold, for a charge.
  abbrev pub parts : Dict Text Text → ℤ → ℤ × ℤ
  parts fields micro =
      capture_release (to_int64_of ops codec driver cfg (codes "hold_micro") fields) micro

  -- The usage log of a request, closed with the event's status and the captured part.
  pub record ClosedBy (fields : Dict Text Text) (micro : ℤ) (report : Fields) (l : UsageLog)
      : Type 0 where
    pub status :
        l.status
        ≡ usage_status
            (text_of (codes "status") fields)
            (is_partial_event ops codec driver cfg fields)
    pub captured : l.credits_captured ≡ (parts fields micro).0
    pub report_kept : l.normalized_usage ≡ report

  -- The balance, the ledger and the usage log after the settlement of one charge.
  pub record IsSettledFor (fields : Dict Text Text) (request user : Uuid) (micro : ℤ)
      (report : Fields) (t t' : Tables) : Type 0 where
    pub before : User
    pub found : find_user user t.users ≡ some before
    pub balance :
        (u : User)
        → find_user user t'.users ≡ some u
        → u.balance ≡ settled_balance (parts fields micro).0 (parts fields micro).1 before.balance
    pub rows :
        t'.ledger
        ≡ (with_release t user request
            (parts fields micro).0
            (parts fields micro).1
            (settlement_key codec.show_uuid
              (codes "capture-")
              request
              (text_of (codes "idempotency_key") fields))
            (settlement_key codec.show_uuid
              (codes "release-")
              request
              (text_of (codes "idempotency_key") fields))
            before.balance).ledger
    pub closed :
        (l : UsageLog)
        → find (λ (k : UsageLog). k.request_id == request) t'.usage_logs ≡ some l
        → ClosedBy fields micro report l

  settle_event-IsSettledFor :
      (fields : Dict Text Text) (request user : Uuid) (raw : Fields) (micro : ℤ) (report : Fields)
      (w : World) {a : Unit {0}} {w' : World}
      → settle_event ops codec driver cfg fields request user raw (micro, report) w ≡ (ok a, w')
      → IsSettledFor fields request user micro report w.db.tables w'.db.tables
  unfolding settle_event close_usage_log usage_of
  settle_event-IsSettledFor fields request user raw micro report w {a} {w'} h =
      let key = text_of (codes "idempotency_key") fields in
      let c = (parts fields micro).0 in
      let r = (parts fields micro).1 in
      let usage = usage_of ops codec driver cfg fields raw report in
      let (ids, w₁, ran, rest) =
        bind-eq-ok (on_db (capture_and_release codec.show_uuid user request c r usage key)) _ w h in
      let d =
        (capture_and_release-SettleDone codec.show_uuid w.db.tables user request c r usage key).at
          w.db refl ids w₁.db (ap (λ (x : Result LedgerTxnIds × World). (x.0, x.1.db)) ran) in
      let same : SameCredits w₁.db.tables w'.db.tables =
        subst (λ (v : World). SameCredits w₁.db.tables v.db.tables)
          (ap (λ (x : Result (Unit {0}) × World). x.1) rest)
          (after_settlement-SameCredits ops codec driver cfg user request w₁) in
      record {
        before = d.before;
        found = d.found;
        balance = λ u e.
            set_user_balance_self user _ _ _ {u = d.before}
              (rw (users-with_entry, users-with_entry) d.found)
              (ap (find_user user) (sym (same.users ∙ ap (λ (t : Tables). t.users) d.tables)) ∙ e);
        rows = same.ledger ∙ ap (λ (t : Tables). t.ledger) d.tables;
        closed = λ l e.
            let (k, is) =
              find-close request _ _ (λ k. refl)
                (ap (find (λ (k : UsageLog). k.request_id == request))
                    (sym (same.usage_logs ∙ ap (λ (t : Tables). t.usage_logs) d.tables))
                  ∙ e) in
            record {
              status = ap (λ (k : UsageLog). k.status) is;
              captured = ap (λ (k : UsageLog). k.credits_captured) is;
              report_kept = ap (λ (k : UsageLog). k.normalized_usage) is;
            };
      }

  -- What ProcessEvent has done with an event.
  pub record IsSettled (fields : Dict Text Text) (w w' : World) : Type 0 where
    pub request : Uuid
    pub user : Uuid
    pub of_request : codec.parse_uuid (text_of (codes "request_id") fields) ≡ some request
    pub of_user : codec.parse_uuid (text_of (codes "user_id") fields) ≡ some user
    pub micro : ℤ
    pub report : Fields
    pub charged :
        (charge_event ops codec driver cfg fields
          (normalized_usage_of ops codec driver cfg fields)
          w).0
        ≡ ok (micro, report)
    pub settled : IsSettledFor fields request user micro report w.db.tables w'.db.tables

  charged-IsSettled :
      (fields : Dict Text Text) (request user : Uuid) (w : World) {a : Unit {0}} {w' : World}
      → codec.parse_uuid (text_of (codes "request_id") fields) ≡ some request
      → codec.parse_uuid (text_of (codes "user_id") fields) ≡ some user
      → (charge_event ops codec driver cfg fields (normalized_usage_of ops codec driver cfg fields)
            >>= settle_event ops codec driver cfg fields request user
                (normalized_usage_of ops codec driver cfg fields))
          w
        ≡ (ok a, w')
      → IsSettled fields w w'
  charged-IsSettled fields request user w {a} {w'} is_request is_user h =
      let raw = normalized_usage_of ops codec driver cfg fields in
      let ((micro, report), w₁, charged, rest) =
        bind-eq-ok (charge_event ops codec driver cfg fields raw)
          (settle_event ops codec driver cfg fields request user raw) w h in
      let same : w₁.db.tables ≡ w.db.tables =
        ap (λ (x : Result (ℤ × Fields) × World). x.1.db.tables) (sym charged)
        ∙ charge_event-tables ops codec driver cfg fields raw w in
      record {
        request = request;
        user = user;
        of_request = is_request;
        of_user = is_user;
        micro = micro;
        report = report;
        charged = ap (λ (x : Result (ℤ × Fields) × World). x.0) charged;
        settled =
            subst (λ t. IsSettledFor fields request user micro report t w'.db.tables) same
              (settle_event-IsSettledFor fields request user raw micro report w₁ rest);
      }

  -- An event that ProcessEvent processes without an error is settled for what its usage is charged: the
  -- rows of the captured and of the released part of its hold are appended to the ledger, the user's
  -- balance is the one that they leave, and the usage log of its request is closed with the captured
  -- part and the event's status.
  pub process_event-IsSettled :
      (fields : Dict Text Text) (w : World) {a : Unit {0}} {w' : World}
      → process_event ops codec driver cfg fields w ≡ (ok a, w')
      → IsSettled fields w w'
  unfolding process_event
  process_event-IsSettled fields w {a} {w'} h =
      with_request (codec.parse_uuid (text_of (codes "request_id") fields)) refl
        (codec.parse_uuid (text_of (codes "user_id") fields)) refl h
    where
      with_request :
          (request : Option Uuid)
          → codec.parse_uuid (text_of (codes "request_id") fields) ≡ request
          → (user : Option Uuid) → codec.parse_uuid (text_of (codes "user_id") fields) ≡ user
          → (or_fail request (failure (codes "request id")) >>= λ r.
                or_fail user (failure (codes "user id")) >>= λ u.
                charge_event ops codec driver cfg fields
                  (normalized_usage_of ops codec driver cfg fields)
                >>= settle_event ops codec driver cfg fields r u
                    (normalized_usage_of ops codec driver cfg fields))
              w
            ≡ (ok a, w')
          → IsSettled fields w w'
      with_request none e o f g = cc g
      with_request (some r) e none f g = cc g
      with_request (some r) e (some u) f g = charged-IsSettled fields r u w e f g
