-- ===== src/Proxy/StreamMeter/Pass.antt =====
-- What the copy of internal/proxy/stream_meter.go keeps of the source and passes on to the client.
pub mod Lines
pub mod Reads
use Lines.{Passed, lines}
use Reads.{ReadsTo, copy_from-HasRead}
use quarkgate.Models.{Time}
use quarkgate.Prelude.{
  List, Option, arith, length, some, take, ℕ, ◌+◌, ◌≡◌, none, ltb, if◌then◌else◌, ℤ,
}
use quarkgate.Proxy.StreamMeter.{Decode, new_metering_reader}
use quarkgate.Proxy.StreamMeter.Copy.{Event, copy}

-- The time when a stream is cut, if there is a limit.
abbrev pub deadline_from : Time → Time → Option Time
deadline_from start max_stream = if ltb 0 max_stream then some (start + max_stream) else none

-- A new reader's copy reads events until one is the end or fails, the credits do not suffice, or the
-- context or the deadline stops it before a read, and its result says which. It has kept the lines of
-- the events that it has read, the last one included, whole and in their order; the total is their
-- length; and the client has been sent the same pieces, with nothing but keep-alives between them.
pub copy_passes_on :
    (decode : Decode) (start : Time) (events : List Event) (idle_sec : ℤ) (max_stream : Time)
    (hold_micro : ℤ)
    → let (total, result, m) =
        copy decode start events (new_metering_reader idle_sec max_stream hold_micro) in
      (n : ℕ) × ReadsTo (deadline_from start max_stream) events n result
      × (m.body ≡ lines (take n events))
      × (total ≡ length m.body)
      × Passed m.written m.body
unfolding copy new_metering_reader
copy_passes_on decode start events idle_sec max_stream hold_micro =
    let read = copy_from-HasRead decode (deadline_from start max_stream) 0 start events _ in
    (
      read.count,
      read.reads,
      read.kept,
      rw read.kept (omega (arith, read.total_eq)),
      read.passed Passed.nothing,
    )
