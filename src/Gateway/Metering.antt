-- ===== src/Gateway/Metering.antt =====
-- EmitMeterEvent of internal/gateway/route.go. How Redis keeps an int64 and a bool is a parameter.
pub mod Read
pub mod Delivered
use quarkgate.Models.{MeteringEvent}
use quarkgate.Prelude.{
  Bool, Dict, Text, [], codes, if◌then◌else◌, insert, ℤ, ◌==◌, ◌∷◌, nat_eq, text_eq, int_eq,
}
use quarkgate.Redis.Stream.{emit_meter_event}
use quarkgate.World.{World}

module _ (format_int64 : ℤ → Text) (show_bool : Bool → Text) where
  -- `fields`, as the stream keeps them
  unfoldable pub event_values : MeteringEvent → Dict Text Text
  event_values e =
      let fields : Dict Text Text =
        (codes "request_id", e.request_id)
        ∷ (codes "user_id", e.user_id)
        ∷ (codes "key_id", e.key_id)
        ∷ (codes "provider", e.provider)
        ∷ (codes "operation", e.operation)
        ∷ (codes "status", e.status)
        ∷ (codes "raw_usage", e.raw_usage)
        ∷ (codes "partial", show_bool e.is_partial)
        ∷ (codes "duration_ms", format_int64 e.duration_ms)
        ∷ (codes "timestamp", e.timestamp)
        ∷ (codes "error", e.error)
        ∷ (codes "hold_micro", format_int64 e.hold_micro)
        ∷ [] in
      let keyed =
        if e.idempotency_key == []
        then fields
        else insert (codes "idempotency_key") e.idempotency_key fields in
      if e.envelope == [] then keyed else insert (codes "envelope") e.envelope keyed

  -- EmitMeterEvent: the error of Redis is dropped.
  unfoldable pub emit_event : MeteringEvent → World → World
  emit_event e w = record w { redis = (emit_meter_event (event_values e) w.redis).1 }
