-- ===== src/Proxy/Bulkhead.antt =====
-- internal/proxy/bulkhead.go. The nil bulkhead of NewBulkhead is `none`; a missing entry of the map
-- counts 0. Each method holds the mutex throughout, so a run of the gateway is a sequence of calls.
pub mod Limit
pub mod Running
use quarkgate.Prelude.{
  Bool, Dict, Option, Text, [], false, if◌then◌else◌, insert, leb_ℤ, lookup, ltb_ℤ, none, pos, some,
  true, wrap64, ℤ, ◌+ℤ◌, ◌-ℤ◌, nat_eq, text_eq, int_eq,
}

pub record Bulkhead : Type 0 where
  pub limit : ℤ
  pub active : Dict Text ℤ

-- NewBulkhead
unfoldable pub new_bulkhead : ℤ → Option Bulkhead
new_bulkhead limit =
    if leb_ℤ limit (pos 0) then none else some (record { limit = limit; active = [] })

-- `b.active[provider]`
unfoldable pub active_count : Text → Bulkhead → ℤ
active_count provider b = elim (lookup provider b.active) [ none ↦ pos 0 | some n ↦ n ]

abbrev set_count : Text → ℤ → Bulkhead → Bulkhead
set_count provider n b = record b { active = insert provider (wrap64 n) b.active }

-- TryAcquire
unfoldable pub try_acquire : Text → Option Bulkhead → Bool × Option Bulkhead
try_acquire provider none = (true, none)
try_acquire provider (some b) =
    if leb_ℤ b.limit (active_count provider b)
    then (false, some b)
    else (true, some (set_count provider (active_count provider b +ℤ pos 1) b))

-- Release
unfoldable pub release : Text → Option Bulkhead → Option Bulkhead
release provider none = none
release provider (some b) =
    if ltb_ℤ (pos 0) (active_count provider b)
    then some (set_count provider (active_count provider b -ℤ pos 1) b)
    else some b
