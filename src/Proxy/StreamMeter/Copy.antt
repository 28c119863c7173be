-- ===== src/Proxy/StreamMeter/Copy.antt =====
-- The loop `copy` of internal/proxy/stream_meter.go.
use quarkgate.Models.{Time}
use quarkgate.Prelude.{
  Bool, List, Option, Text, [], codes, false, if◌then◌else◌, is_empty, leb_ℤ, length, ltb, ltb_ℤ,
  none, pos, some, ℕ, ℤ, ◌++◌, ◌+◌, ◌-◌, ◌∷◌,
}
use quarkgate.Proxy.StreamMeter.{Decode, MeteringReader, finalize_usage, parse_line}

-- How a read ended: more may follow, the source is at its end, or it failed.
pub data ReadEnd : Type 0 where
  more eof broken : ReadEnd

-- One call of ReadBytes: the state of the context and the clock before it, the line, how the read
-- ended, and the clock after it.
pub record Event : Type 0 where
  pub cancelled : Bool
  pub before : Time
  pub line : Text
  pub ending : ReadEnd
  pub after : Time

pub data CopyResult : Type 0 where
  finished context_done deadline_exceeded insufficient_credits read_failed : CopyResult

abbrev pub keepalive : Text
keepalive = codes ": keepalive" ++ 10 ∷ 10 ∷ []

-- `idle`, with its default of 30 seconds
unfoldable pub idle_limit : MeteringReader → ℤ
idle_limit m = if leb_ℤ m.idle_sec (pos 0) then pos 30 else m.idle_sec

-- A line that was read is kept, passed on and parsed.
unfoldable pub take_line : Decode → Text → MeteringReader → MeteringReader
take_line decode line m =
    if is_empty line
    then m
    else parse_line decode line (record m { body = m.body ++ line; written = m.written ++ line })

-- The keep-alive after a long pause.
unfoldable pub keep_alive : MeteringReader → MeteringReader
keep_alive m = record m { written = m.written ++ keepalive }

-- `!deadline.IsZero() && time.Now().After(deadline)`
unfoldable pub is_past : Option Time → Time → Bool
is_past none now = false
is_past (some d) now = ltb d now

abbrev pub CopyEnd : Type 0
CopyEnd = ℕ × CopyResult × MeteringReader

-- The returns of the loop's body, in their order; `m` is the state before the read.
unfoldable pub stop_at : Decode → Option Time → ℕ → Event → MeteringReader → Option CopyEnd
stop_at decode deadline total e m =
    let m₁ = take_line decode e.line m in
    if e.cancelled
    then some (total, context_done, finalize_usage m)
    else if is_past deadline e.before
    then some (total, deadline_exceeded, finalize_usage m)
    else if m₁.soft_cap_exceeded
    then some (total + length e.line, insufficient_credits, finalize_usage m₁)
    else elim e.ending [
      | more ↦ none
      | eof ↦ some (total + length e.line, finished, finalize_usage m₁)
      | broken ↦ some (total + length e.line, read_failed, finalize_usage m₁)
    ]

-- The time of the last activity after the read of a line.
abbrev pub last_activity : Time → Event → Time
last_activity last e = if is_empty e.line then last else e.after

-- `time.Since(lastActivity) > idle`
unfoldable pub is_idle : Time → Event → MeteringReader → Bool
unfolding idle_limit
is_idle last e m = ltb_ℤ (idle_limit m) (pos (e.after - last_activity last e))

-- The end of the loop's body, where it has not returned.
unfoldable pub next_reader : Decode → Time → Event → MeteringReader → MeteringReader
next_reader decode last e m =
    if is_idle last e m then keep_alive (take_line decode e.line m) else take_line decode e.line m

abbrev pub next_activity : Time → Event → MeteringReader → Time
next_activity last e m = if is_idle last e m then e.after else last_activity last e

abbrev pub or_go_on : Option CopyEnd → CopyEnd → CopyEnd
or_go_on none rest = rest
or_go_on (some stopped) rest = stopped

-- `copy` from a given state: the total, the time of the last activity, and the deadline. A list of
-- events that ends before the source does stands for a source that fails.
unfoldable pub copy_from : Decode → Option Time → ℕ → Time → List Event → MeteringReader → CopyEnd
copy_from decode deadline total last [] m = (total, read_failed, finalize_usage m)
copy_from decode deadline total last (e ∷ events) m = or_go_on (stop_at decode deadline total e m) (
    copy_from decode deadline (total + length e.line) (next_activity last e m) events
      (next_reader decode last e m))

-- copy, begun at the time `start`
unfoldable pub copy : Decode → Time → List Event → MeteringReader → CopyEnd
copy decode start events m =
    copy_from decode (if ltb 0 m.max_stream then some (start + m.max_stream) else none) 0 start
      events m
