-- ===== src/Gateway/Serve.antt =====
-- cmd/gateway/main.go: the requests that the server takes, and how it shuts down. /metrics is a
-- parameter.
use quarkgate.Exec.{Result, err, ok}
use quarkgate.Gateway.{Handler, Reply, set_header}
use quarkgate.Models.{Time}
use quarkgate.Prelude.{
  Bool-cases, Option, Text, [], arith, codes, false, if◌then◌else◌, inl, inr, ltb, ltb_ℤ, none, pos,
  refl, some, suc, zero, ℕ, ℤ, ◌&&◌, ◌*◌, ◌++◌, ◌+◌, ◌==◌, ◌∷◌, ◌≡◌, ◌≤ℤ◌, ◌≤◌, ◌⊎◌, Bool, ltb→lt,
  subst, true, ◌<◌, nat_eq, text_eq, int_eq,
}
use quarkgate.Redis.{command}
use quarkgate.Store.{round_trip}
use quarkgate.World.{World, on_db, on_redis}

-- `/healthz`
unfoldable pub healthz : Handler
healthz r w = (record { status = 200; headers = []; body = codes "ok" }, w)

abbrev plain_error : Text → Reply
plain_error message = record {
  status = 503;
  headers =
      set_header (codes "Content-Type") (codes "text/plain; charset=utf-8")
      ∷ set_header (codes "X-Content-Type-Options") (codes "nosniff")
      ∷ [];
  body = message ++ 10 ∷ [];
}

unfoldable pub redis_ready : Result (Unit {0}) → Reply
redis_ready (err e) = plain_error (codes "redis down")
redis_ready (ok _) = record { status = 200; headers = []; body = codes "ready" }

-- After the database: Redis is asked only if that answers.
unfoldable pub database_ready : Result (Unit {0}) → World → Reply × World
database_ready (err e) w = (plain_error (codes "db down"), w)
database_ready (ok _) w =
    let (pong, w₁) = on_redis (command (λ s. (ok tt, s))) w in (redis_ready pong, w₁)

-- `/readyz`
unfoldable pub readyz : Handler
readyz r w = let (pong, w₁) = on_db round_trip w in database_ready pong w₁

-- The mux: every other path is the gateway's.
unfoldable pub serve_mux : Handler → Handler → Handler
serve_mux metrics gateway_handler r w =
    if r.path == codes "/healthz"
    then healthz r w
    else if r.path == codes "/readyz"
    then readyz r w
    else if r.path == codes "/metrics"
    then metrics r w
    else gateway_handler r w

-- The loop after the signal: it sleeps while requests are active and the deadline is not reached.
-- `active k` and `now k` are what ActiveCount and the clock, in milliseconds, show in round `k`. The
-- result is the round in which the loop ends; `none` is a run out of fuel.
unfoldable pub drain : (ℕ → ℤ) → (ℕ → Time) → Time → ℕ → ℕ → Option ℕ
drain active now deadline zero k = none
drain active now deadline (suc fuel) k =
    let rest = drain active now deadline fuel (k + 1) in
    if ltb_ℤ (pos 0) (active k) && ltb (now k) deadline then rest else some k

-- The shutdown waits for 30 seconds at most, in rounds of 100 milliseconds.
unfoldable pub shut_down : (ℕ → ℤ) → (ℕ → Time) → Option ℕ
shut_down active now = drain active now (now 0 + 30000) 301 0

-- A round that ends the loop: no request is active, or the time is over.
abbrev Ends : (ℕ → ℤ) → (ℕ → Time) → Time → ℕ → Type 0
Ends active now deadline n = (active n ≤ℤ pos 0) ⊎ (deadline ≤ now n)

later_by :
    (now : ℕ → Time) (k : ℕ) → ((n : ℕ) → now n + 100 ≤ now (n + 1)) → now 0 + 100 * k ≤ now k
later_by now zero sleeps = omega arith
later_by now (suc k) sleeps =
    let next : now k + 100 ≤ now (suc k) =
      subst (λ m. now k + 100 ≤ now m) (omega arith) (sleeps k) in
    omega (arith, later_by now k sleeps)

ends_of_test :
    (a : ℤ) (t deadline : ℕ)
    → ltb_ℤ (pos 0) a && ltb t deadline ≡ false
    → (a ≤ℤ pos 0) ⊎ (deadline ≤ t)
ends_of_test a t deadline h = ground arith

both : (a b : Bool) → a && b ≡ true → b ≡ true
both a b h = ground (arith, h)

drain-Ends :
    (active : ℕ → ℤ) (now : ℕ → Time) (f k : ℕ)
    → ((n : ℕ) → now n + 100 ≤ now (n + 1))
    → k + f ≡ 300
    → (n : ℕ) × (drain active now (now 0 + 30000) (suc f) k ≡ some n)
      × Ends active now (now 0 + 30000) n
unfolding drain
drain-Ends active now zero k sleeps e =
    elim (Bool-cases (ltb_ℤ (pos 0) (active k) && ltb (now k) (now 0 + 30000))) [
      | inr over ↦ (k, rw over refl, ends_of_test (active k) (now k) (now 0 + 30000) over)
      | inl waits ↦
          let early : now k < now 0 + 30000 = ltb→lt _ _ (both _ _ waits) in
          absurd (omega (arith, later_by now k sleeps))
    ]
drain-Ends active now (suc f) k sleeps e =
    elim (Bool-cases (ltb_ℤ (pos 0) (active k) && ltb (now k) (now 0 + 30000))) [
      | inr over ↦ (k, rw over refl, ends_of_test (active k) (now k) (now 0 + 30000) over)
      | inl waits ↦ rw waits (drain-Ends active now f (k + 1) sleeps (omega arith))
    ]

-- Where each round of the shutdown takes 100 milliseconds or more, the loop ends within its fuel, and
-- in a round in which no request is active or 30 seconds are over.
pub shut_down_ends :
    (active : ℕ → ℤ) (now : ℕ → Time)
    → ((n : ℕ) → now n + 100 ≤ now (n + 1))
    → (n : ℕ) × (shut_down active now ≡ some n) × ((active n ≤ℤ pos 0) ⊎ (now 0 + 30000 ≤ now n))
unfolding shut_down
shut_down_ends active now sleeps = drain-Ends active now 300 0 sleeps refl
