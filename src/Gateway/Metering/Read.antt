-- ===== src/Gateway/Metering/Read.antt =====
-- What ProcessEvent of internal/metering/worker.go reads of the events that EmitMeterEvent of
-- internal/gateway/route.go writes.
use quarkgate.Gateway.Metering.{event_values}
use quarkgate.Metering.Worker.{text_of}
use quarkgate.Models.{MeteringEvent}
use quarkgate.Prelude.{
  Bool, Bool-cases, Dict, Text, [], codes, inl, inr, insert, lookup, refl, sym, text_beq_iff, true,
  ℤ, ◌==◌, ◌≡◌, nat_eq, text_eq, int_eq,
}

module _ (format_int64 : ℤ → Text) (show_bool : Bool → Text) where
  -- Each field is read as it was written; a missing one reads as the empty text that it stands for.
  pub record Reads (e : MeteringEvent) (values : Dict Text Text) : Type 0 where
    pub request_id : text_of (codes "request_id") values ≡ e.request_id
    pub user_id : text_of (codes "user_id") values ≡ e.user_id
    pub provider : text_of (codes "provider") values ≡ e.provider
    pub operation : text_of (codes "operation") values ≡ e.operation
    pub status : text_of (codes "status") values ≡ e.status
    pub raw_usage : text_of (codes "raw_usage") values ≡ e.raw_usage
    pub is_partial : text_of (codes "partial") values ≡ show_bool e.is_partial
    pub duration_ms : text_of (codes "duration_ms") values ≡ format_int64 e.duration_ms
    pub hold_micro : text_of (codes "hold_micro") values ≡ format_int64 e.hold_micro
    pub idempotency_key : text_of (codes "idempotency_key") values ≡ e.idempotency_key
    pub envelope : text_of (codes "envelope") values ≡ e.envelope

  is_empty_text : (t : Text) → (t == []) ≡ true → [] ≡ t
  is_empty_text t h = sym ((text_beq_iff t []).0 h)

  -- For every metering event that EmitMeterEvent writes, each field that ProcessEvent reads has the
  -- text it was written with; a key or an envelope that was left out reads as the empty one it stands for.
  pub event_values-Reads : (e : MeteringEvent) → Reads e (event_values format_int64 show_bool e)
  unfolding event_values lookup insert
  event_values-Reads e = elim (Bool-cases (e.idempotency_key == [])) [
    | inl unkeyed ↦ elim (Bool-cases (e.envelope == [])) [
      | inl bare ↦
          rw (unkeyed, bare)
            (record {
              request_id = refl;
              user_id = refl;
              provider = refl;
              operation = refl;
              status = refl;
              raw_usage = refl;
              is_partial = refl;
              duration_ms = refl;
              hold_micro = refl;
              idempotency_key = is_empty_text _ unkeyed;
              envelope = is_empty_text _ bare;
            })
      | inr enveloped ↦
          rw (unkeyed, enveloped)
            (record {
              request_id = refl;
              user_id = refl;
              provider = refl;
              operation = refl;
              status = refl;
              raw_usage = refl;
              is_partial = refl;
              duration_ms = refl;
              hold_micro = refl;
              idempotency_key = is_empty_text _ unkeyed;
              envelope = refl;
            })
    ]
    | inr keyed ↦ elim (Bool-cases (e.envelope == [])) [
      | inl bare ↦
          rw (keyed, bare)
            (record {
              request_id = refl;
              user_id = refl;
              provider = refl;
              operation = refl;
              status = refl;
              raw_usage = refl;
              is_partial = refl;
              duration_ms = refl;
              hold_micro = refl;
              idempotency_key = refl;
              envelope = is_empty_text _ bare;
            })
      | inr enveloped ↦
          rw (keyed, enveloped)
            (record {
              request_id = refl;
              user_id = refl;
              provider = refl;
              operation = refl;
              status = refl;
              raw_usage = refl;
              is_partial = refl;
              duration_ms = refl;
              hold_micro = refl;
              idempotency_key = refl;
              envelope = refl;
            })
    ]
  ]
