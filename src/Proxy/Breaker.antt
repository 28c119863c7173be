-- ===== src/Proxy/Breaker.antt =====
-- internal/proxy/breaker.go and active.go. One breaker serves all providers: `Allow` does not use
-- its argument. The test on the failure rate is float64 arithmetic, a parameter here.
use quarkgate.Json.{Float64}
use quarkgate.Models.{Time}
use quarkgate.Prelude.{
  Bool, List, [], arith, false, if◌then◌else◌, ltb, pos, refl, true, wrap64, ℕ, ℤ, ◌+ℤ◌, ◌+◌, ◌-ℤ◌,
  ◌<◌, ◌∷◌, ◌≡◌, ◌≤◌, leb,
}

-- float64(a) / float64(b) > t
abbrev pub RateExceeds : Type 0
RateExceeds = ℕ → ℕ → Float64 → Bool

pub record CircuitBreaker : Type 0 where
  pub failures : ℕ
  pub successes : ℕ
  pub open_until : Time
  pub threshold : Float64
  pub cooldown : Time

-- NewCircuitBreaker; the zero time is before every time.
unfoldable pub new_circuit_breaker : Float64 → Time → CircuitBreaker
new_circuit_breaker threshold cooldown = record {
  failures = 0;
  successes = 0;
  open_until = 0;
  threshold = threshold;
  cooldown = cooldown;
}

-- Allow, at the time `now`
unfoldable pub allow : RateExceeds → Time → CircuitBreaker → Bool × CircuitBreaker
allow exceeds now cb =
    if ltb now cb.open_until
    then (false, cb)
    else if ltb (cb.failures + cb.successes) 5
    then (true, cb)
    else if exceeds cb.failures (cb.failures + cb.successes) cb.threshold
    then (false, record cb { open_until = now + cb.cooldown; failures = 0; successes = 0 })
    else (true, cb)

-- Record
unfoldable pub record_outcome : Bool → CircuitBreaker → CircuitBreaker
record_outcome true cb = record cb { successes = cb.successes + 1 }
record_outcome false cb = record cb { failures = cb.failures + 1 }

-- IncActive
unfoldable pub inc_active : ℤ → ℤ
inc_active n = wrap64 (n +ℤ pos 1)

-- DecActive
unfoldable pub dec_active : ℤ → ℤ
dec_active n = wrap64 (n -ℤ pos 1)

-- The outcomes of several requests, one after another.
unfoldable pub record_outcomes : List Bool → CircuitBreaker → CircuitBreaker
unfolding record_outcome
record_outcomes [] cb = cb
record_outcomes (b ∷ bs) cb = record_outcomes bs (record_outcome b cb)

open_until-record_outcomes :
    (bs : List Bool) (cb : CircuitBreaker) → (record_outcomes bs cb).open_until ≡ cb.open_until
unfolding record_outcomes
open_until-record_outcomes [] cb = refl
open_until-record_outcomes (true ∷ bs) cb = open_until-record_outcomes bs _
open_until-record_outcomes (false ∷ bs) cb = open_until-record_outcomes bs _

-- Once at least five outcomes are counted and the rate exceeds the threshold, the breaker refuses
-- the call and starts from no counts. A later call is let through exactly when the cooldown is
-- over, and changes nothing.
pub allow_opens :
    (exceeds : RateExceeds) (now later : Time) (cb : CircuitBreaker)
    → cb.open_until ≤ now
    → 5 ≤ cb.failures + cb.successes
    → exceeds cb.failures (cb.failures + cb.successes) cb.threshold ≡ true
    → let (allowed, opened) = allow exceeds now cb in
      (allowed ≡ false)
      × (opened.failures + opened.successes ≡ 0)
      × (allow exceeds later opened ≡ (leb (now + cb.cooldown) later, opened))
unfolding allow
allow_opens exceeds now later cb ended enough high = ground arith

-- Until the cooldown is over an open breaker refuses every call, whatever outcomes of requests
-- still running come in.
pub allow_refuses :
    (exceeds : RateExceeds) (now later : Time) (outcomes : List Bool) (cb : CircuitBreaker)
    → (allow exceeds now cb).0 ≡ false
    → cb.open_until ≤ now
    → later < now + cb.cooldown
    → (allow exceeds later (record_outcomes outcomes (allow exceeds now cb).1)).0 ≡ false
unfolding allow
allow_refuses exceeds now later outcomes cb refused ended early = ground (
  arith,
  open_until-record_outcomes outcomes
      (record cb { open_until = now + cb.cooldown; failures = 0; successes = 0 }),
)
