-- ===== src/Tests/Proxy.antt =====
-- The theorems on the bulkhead, the breaker and the stream reader, at small inputs.

use quarkgate.Prelude.{
  List, [], codes, insert, int_laws, pos, refl, some, wrap64, ◌+ℤ◌, ◌∷◌, ◌≡◌, ◌≤ℤ◌, lookup, arith,
  false, leb, length, ltb, none, subst, take, true, ℕ, ◌*◌, ◌+◌, nat_eq, text_eq, int_eq,
}
use quarkgate.Proxy.Breaker.{
  CircuitBreaker, RateExceeds, allow, allow_opens, allow_refuses, record_outcomes,
}
use quarkgate.Proxy.Bulkhead.{Bulkhead, active_count, new_bulkhead, try_acquire, release}
use quarkgate.Proxy.Bulkhead.Limit.{
  Call, begin, call, calls, calls-within_limit, IsLimited, calls-IsLimited, new_bulkhead-IsLimited,
  IsLimited?, release-try_acquire,
}
use quarkgate.Proxy.StreamMeter.{Decode, new_metering_reader}
use quarkgate.Proxy.StreamMeter.Copy.{CopyEnd, Event, copy, eof}
use quarkgate.Proxy.StreamMeter.Pass.{copy_passes_on, deadline_from}
use quarkgate.Proxy.StreamMeter.Pass.Lines.{Passed, lines}
use quarkgate.Proxy.StreamMeter.Pass.Reads.{ReadsTo}

abbrev one_call : List Call
one_call = begin (codes "openrouter") ∷ []

abbrev busy : Bulkhead
busy = record { limit = pos 2; active = insert (codes "openrouter") (pos 1) [] }

busy_run : calls one_call (new_bulkhead (pos 2)) ≡ some busy
unfolding calls call new_bulkhead try_acquire active_count wrap64 ◌+ℤ◌ lookup
busy_run = refl

calls-within_limit_example :
    (pos 0 ≤ℤ active_count (codes "openrouter") busy)
    × (active_count (codes "openrouter") busy ≤ℤ pos 2)
calls-within_limit_example =
    calls-within_limit (pos 2) one_call (codes "openrouter") (omega int_laws, omega int_laws)
      busy_run

busy-IsLimited : IsLimited busy
busy-IsLimited = subst IsLimited? busy_run (
    calls-IsLimited one_call (new_bulkhead (pos 2))
      (new_bulkhead-IsLimited (pos 2) (omega int_laws, omega int_laws)))

abbrev full : Bulkhead
full = record { limit = pos 2; active = insert (codes "openrouter") (pos 2) busy.active }

full_run : try_acquire (codes "openrouter") (some busy) ≡ (true, some full)
unfolding try_acquire active_count wrap64 ◌+ℤ◌ lookup insert
full_run = refl

release-try_acquire_example :
    (b'' : Bulkhead) × (release (codes "openrouter") (some full) ≡ some b'')
    × (active_count (codes "openrouter") b'' ≡ active_count (codes "openrouter") busy)
release-try_acquire_example =
    release-try_acquire (codes "openrouter") (codes "openrouter") busy full busy-IsLimited full_run

-- A breaker that has counted five failures.
abbrev failed_five : CircuitBreaker
failed_five = record { failures = 5; successes = 0; open_until = 0; threshold = 1; cooldown = 30 }

abbrev exceeds_half : RateExceeds
exceeds_half a b t = ltb b (a * 2)

allow_opens_example :
    ((allow exceeds_half 100 failed_five).0 ≡ false)
    × ((allow exceeds_half 100 failed_five).1.failures
          + (allow exceeds_half 100 failed_five).1.successes
        ≡ 0)
    × (allow exceeds_half 110 (allow exceeds_half 100 failed_five).1
        ≡ (leb 130 110, (allow exceeds_half 100 failed_five).1))
allow_opens_example = allow_opens exceeds_half 100 110 failed_five (omega arith) (omega arith) refl

refused_run : (allow exceeds_half 100 failed_five).0 ≡ false
unfolding allow
refused_run = refl

allow_refuses_example :
    (allow exceeds_half 110
      (record_outcomes (true ∷ false ∷ []) (allow exceeds_half 100 failed_five).1)).0
    ≡ false
allow_refuses_example =
    allow_refuses exceeds_half 100 110 (true ∷ false ∷ []) failed_five refused_run (omega arith)
      (omega arith)

-- A stream of one chunk.
abbrev chunk : Event
chunk = record {
  cancelled = false;
  before = 5;
  line = codes "data: {\"x\":\"abcdefgh\"}";
  ending = eof;
  after = 6;
}

abbrev no_json : Decode
no_json text = none

abbrev stream : CopyEnd
stream = copy no_json 4 (chunk ∷ []) (new_metering_reader (pos 30) 60 (pos 900))

copy_passes_on_example :
    (n : ℕ) × ReadsTo (deadline_from 4 60) (chunk ∷ []) n stream.1
    × (stream.2.body ≡ lines (take n (chunk ∷ [])))
    × (stream.0 ≡ length stream.2.body)
    × Passed stream.2.written stream.2.body
copy_passes_on_example = copy_passes_on no_json 4 (chunk ∷ []) (pos 30) 60 (pos 900)
