-- ===== src/Proxy/StreamMeter/Cap.antt =====
-- The soft cap of internal/proxy/stream_meter.go: a stream is cut exactly when the estimate of its
-- cost passes the hold. And what the copy passes on.
use mathlib.Core.Logic.{◌↔◌}
use quarkgate.Prelude.{Bool, ltb_ℤ, pos, true, wrap64, ◌&&◌, ◌*ℤ◌, ◌≡◌}
use quarkgate.Proxy.StreamMeter.{MeteringReader}
use quarkgate.Proxy.StreamMeter.Copy.{insufficient_credits, CopyEnd}

-- `m.holdMicro > 0 && m.estOutput*900 > m.holdMicro`
abbrev pub is_over : MeteringReader → Bool
is_over m = ltb_ℤ (pos 0) m.hold_micro && ltb_ℤ m.hold_micro (wrap64 (m.est_output *ℤ pos 900))

-- The mark is set exactly when the estimate is over.
abbrev pub IsMarked : MeteringReader → Type 0
IsMarked m = m.soft_cap_exceeded ≡ is_over m

-- What a copy ends with: the mark is right, and it is set exactly when the stream was cut.
abbrev pub IsCutRight : CopyEnd → Type 0
IsCutRight (total, result, m) = IsMarked m × ((result ≡ insufficient_credits) ↔ (is_over m ≡ true))
