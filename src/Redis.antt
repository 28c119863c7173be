-- ===== src/Redis.antt =====
-- internal/redis/client.go over a Redis server: the key space with expiry, the sorted sets of the
-- rate limiter, and the metering stream. Each command may fail, where `outage` says so.
pub mod Keys
pub mod Values
pub mod Rate
pub mod Stream
pub mod Quiet
use quarkgate.Exec.{Exec, Result, err, unavailable}
use quarkgate.Models.{Time}
use quarkgate.Prelude.{Bool, Dict, List, Option, Text, if◌then◌else◌, ℕ, ◌+◌, false, ◌≡◌}

pub record Cell : Type 0 where
  pub value : Text
  pub expires : Option Time

-- A message of a stream: its number, and the values as Redis keeps them.
pub record Message : Type 0 where
  pub id : ℕ
  pub values : Dict Text Text

-- An entry of the consumer group's pending list.
pub record Delivery : Type 0 where
  pub message : Message
  pub count : ℕ
  pub delivered_at : Time

-- `delivered` counts the stream's messages that the consumer group has read.
pub record Server : Type 0 where
  pub cells : Dict Text Cell
  pub windows : Dict Text (List Time)
  pub stream : List Message
  pub delivered : ℕ
  pub pending : List Delivery
  pub dead : List Message
  pub next_id : ℕ
  pub now : Time

pub record Redis : Type 0 where
  pub server : Server
  pub outage : ℕ → Bool
  pub commands : ℕ

unfoldable pub command : {A : Type 0} → (Server → Result A × Server) → Exec Redis A
command body r =
    if r.outage r.commands
    then (err unavailable, record r { commands = r.commands + 1 })
    else let (result, server) = body r.server in
      (result, record r { server = server; commands = r.commands + 1 })

-- No command fails from here on.
abbrev pub IsUp : Redis → Type 0
IsUp r = (n : ℕ) → r.outage n ≡ false

pub command_up :
    {A : Type 0} (body : Server → Result A × Server) (r : Redis)
    → IsUp r
    → command body r
      ≡ ((body r.server).0, record r { server = (body r.server).1; commands = r.commands + 1 })
unfolding command
command_up body r up = rw (up r.commands)
