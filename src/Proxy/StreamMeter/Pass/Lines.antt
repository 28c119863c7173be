-- ===== src/Proxy/StreamMeter/Pass/Lines.antt =====
-- How the copy of internal/proxy/stream_meter.go takes one line.

use quarkgate.Models.{Time}
use quarkgate.Prelude.{Bool-cases, List, Text, [], append-nil, arith, inl, inr, sym, ◌++◌, ◌∷◌, ◌≡◌}
use quarkgate.Proxy.StreamMeter.{
  parse_payload, Decode, MeteringReader, count_chunk, finalize_usage, parse_line, read_usage,
}
use quarkgate.Proxy.StreamMeter.Copy.{Event, is_idle, keep_alive, keepalive, next_reader, take_line}

-- The bytes of the first events' lines.
abbrev pub lines : List Event → Text
lines [] = []
lines (e ∷ events) = e.line ++ lines events

-- The client's bytes are the kept bytes, with keep-alives between the pieces.
pub data Passed : Text → Text → Type 0 where
  nothing : Passed [] []
  piece : {w b : Text} → Passed w b → (l : Text) → Passed (w ++ l) (b ++ l)
  pause : {w b : Text} → Passed w b → Passed (w ++ keepalive) b

-- Parsing a line changes neither the kept bytes nor the client's.
parse_line-texts :
    (decode : Decode) (l : Text) (m : MeteringReader)
    → ((parse_line decode l m).body ≡ m.body) × ((parse_line decode l m).written ≡ m.written)
unfolding parse_line parse_payload read_usage count_chunk
parse_line-texts decode l m = (ground arith, ground arith)

pub finalize_usage-texts :
    (m : MeteringReader)
    → ((finalize_usage m).body ≡ m.body) × ((finalize_usage m).written ≡ m.written)
unfolding finalize_usage
finalize_usage-texts m = (ground arith, ground arith)

pub take_line-body :
    (decode : Decode) (l : Text) (m : MeteringReader) → (take_line decode l m).body ≡ m.body ++ l
unfolding take_line
take_line-body decode [] m = sym (append-nil m.body)
take_line-body decode (c ∷ l) m = (parse_line-texts decode (c ∷ l) _).0

pub take_line-Passed :
    (decode : Decode) (l : Text) (m : MeteringReader)
    → Passed m.written m.body
    → Passed (take_line decode l m).written (take_line decode l m).body
unfolding take_line
take_line-Passed decode [] m h = h
take_line-Passed decode (c ∷ l) m h =
    let (b, w) =
      parse_line-texts decode (c ∷ l)
        (record m { body = m.body ++ c ∷ l; written = m.written ++ c ∷ l }) in
    rw (b, w) (Passed.piece h (c ∷ l))

pub next_reader-Passed :
    (decode : Decode) (last : Time) (e : Event) (m : MeteringReader)
    → Passed m.written m.body
    → Passed (next_reader decode last e m).written (next_reader decode last e m).body
unfolding next_reader keep_alive
next_reader-Passed decode last e m h = elim (Bool-cases (is_idle last e m)) [
  | inl idle ↦ rw idle (Passed.pause (take_line-Passed decode e.line m h))
  | inr busy ↦ rw busy (take_line-Passed decode e.line m h)
]

pub next_reader-body :
    (decode : Decode) (last : Time) (e : Event) (m : MeteringReader)
    → (next_reader decode last e m).body ≡ m.body ++ e.line
unfolding next_reader keep_alive
next_reader-body decode last e m = elim (Bool-cases (is_idle last e m)) [
  | inl idle ↦ rw idle (take_line-body decode e.line m)
  | inr busy ↦ rw busy (take_line-body decode e.line m)
]
