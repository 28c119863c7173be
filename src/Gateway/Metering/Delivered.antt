-- ===== src/Gateway/Metering/Delivered.antt =====
-- What becomes of an event that EmitMeterEvent of internal/gateway/route.go writes when ProcessEvent of
-- internal/metering/worker.go reads it.
use quarkgate.Exec.{ok}
use quarkgate.Gateway.Metering.{event_values}
use quarkgate.Gateway.Metering.Read.{event_values-Reads}
use quarkgate.Json.{Fields}
use quarkgate.Metering.Hold.{capture_release}
use quarkgate.Metering.Normalize.{FloatOps}
use quarkgate.Metering.Worker.{
  Codec, Normalizer, WorkerConfig, charge_event, int_or_0, normalized_usage_of, process_event,
  text_of, to_int64_of, usage_status,
}
use quarkgate.Metering.Worker.Settled.{process_event-IsSettled}
use quarkgate.Models.{UsageLog, MeteringEvent, User, Uuid}
use quarkgate.Prelude.{
  Bool, Dict, Text, ap, codes, find, some, subst, sym, ℤ, ◌==◌, ◌∙◌, ◌≡◌, nat_eq, text_eq, int_eq,
}
use quarkgate.Store.{Tables}
use quarkgate.Store.Credits.{settlement_key}
use quarkgate.Store.Credits.Settle.{settled_balance, with_release}
use quarkgate.Store.Rows.{find_user}
use quarkgate.World.{World}

module _ (ops : FloatOps) (codec : Codec) (driver : Normalizer) (cfg : WorkerConfig)
    (show_bool : Bool → Text) (e : MeteringEvent) where
  -- The event as the stream holds it.
  abbrev pub written : Dict Text Text
  written = event_values codec.format_int64 show_bool e

  -- The two parts of the hold that the gateway wrote.
  abbrev pub parts_of : ℤ → ℤ × ℤ
  parts_of micro = capture_release e.hold_micro micro

  -- The rows that a settlement of the hold `hold` appends, with the client's key.
  abbrev SettlesWith : Text → ℤ → Uuid → Uuid → ℤ → User → Tables → Tables → Type 0
  SettlesWith key hold request user micro before t t' =
      t'.ledger
      ≡ (with_release t user request (capture_release hold micro).0 (capture_release hold micro).1
          (settlement_key codec.show_uuid (codes "capture-") request key)
          (settlement_key codec.show_uuid (codes "release-") request key) before.balance).ledger

  abbrev LeavesBalance : ℤ → Uuid → ℤ → User → Tables → Type 0
  LeavesBalance hold user micro before t' =
      (u : User)
      → find_user user t'.users ≡ some u
      → u.balance
        ≡ settled_balance (capture_release hold micro).0 (capture_release hold micro).1
            before.balance

  -- The usage log of the request, closed with the status and the captured part.
  pub record Closes (micro : ℤ) (l : UsageLog) : Type 0 where
    pub status : l.status ≡ usage_status e.status (show_bool e.is_partial == codes "true")
    pub captured : l.credits_captured ≡ (parts_of micro).0

  -- The settlement, in the words of the event that the gateway emitted.
  pub record IsSettledAs (w w' : World) : Type 0 where
    pub request : Uuid
    pub user : Uuid
    pub of_request : codec.parse_uuid e.request_id ≡ some request
    pub of_user : codec.parse_uuid e.user_id ≡ some user
    pub micro : ℤ
    pub report : Fields
    pub charged :
        (charge_event ops codec driver cfg written
          (normalized_usage_of ops codec driver cfg written)
          w).0
        ≡ ok (micro, report)
    pub before : User
    pub found : find_user user w.db.tables.users ≡ some before
    pub rows :
        SettlesWith e.idempotency_key e.hold_micro request user micro before w.db.tables
          w'.db.tables
    pub balance : LeavesBalance e.hold_micro user micro before w'.db.tables
    pub closed :
        (l : UsageLog)
        → find (λ (k : UsageLog). k.request_id == request) w'.db.tables.usage_logs ≡ some l
        → Closes micro l

  to_int64_of-hold :
      codec.decode_int64 (codec.format_int64 e.hold_micro) ≡ some e.hold_micro
      → to_int64_of ops codec driver cfg (codes "hold_micro") written ≡ e.hold_micro
  unfolding to_int64_of
  to_int64_of-hold decodes =
      let read = event_values-Reads codec.format_int64 show_bool e in
      ap int_or_0 (ap codec.decode_int64 read.hold_micro ∙ decodes)

  -- Where ProcessEvent succeeds with an event as EmitMeterEvent has written it, and the written hold
  -- decodes to itself, what is settled is the hold of that event, for the request, the user and the
  -- client's key that the gateway put into it: the two rows, the balance that they leave, and the
  -- usage log, which gets the event's status.
  pub process_event-event_values :
      (w : World) {a : Unit {0}} {w' : World}
      → codec.decode_int64 (codec.format_int64 e.hold_micro) ≡ some e.hold_micro
      → process_event ops codec driver cfg written w ≡ (ok a, w')
      → IsSettledAs w w'
  process_event-event_values w {a} {w'} decodes ran =
      let read = event_values-Reads codec.format_int64 show_bool e in
      let s = process_event-IsSettled ops codec driver cfg written w ran in
      let hold = to_int64_of-hold decodes in
      let d = s.settled in
      record {
        request = s.request;
        user = s.user;
        of_request = ap codec.parse_uuid (sym read.request_id) ∙ s.of_request;
        of_user = ap codec.parse_uuid (sym read.user_id) ∙ s.of_user;
        micro = s.micro;
        report = s.report;
        charged = s.charged;
        before = d.before;
        found = d.found;
        rows =
            subst
              (λ key.
                SettlesWith key e.hold_micro s.request s.user s.micro d.before w.db.tables
                  w'.db.tables)
              read.idempotency_key
              (subst
                (λ h.
                  SettlesWith (text_of (codes "idempotency_key") written) h s.request s.user s.micro
                    d.before w.db.tables w'.db.tables)
                hold d.rows);
        balance = subst (λ h. LeavesBalance h s.user s.micro d.before w'.db.tables) hold d.balance;
        closed = λ l found.
            let c = d.closed l found in
            record {
              status =
                  c.status
                  ∙ ap (λ t. usage_status t (text_of (codes "partial") written == codes "true"))
                      read.status
                  ∙ ap (λ t. usage_status e.status (t == codes "true")) read.is_partial;
              captured = c.captured ∙ ap (λ h. (capture_release h s.micro).0) hold;
            };
      }
