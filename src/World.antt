-- ===== src/World.antt =====
-- The state of the program: the database and Redis, which the gateway and the ledger worker share,
-- and what the gateway's proxy keeps in its process.
pub mod Sound
use quarkgate.Exec.{Exec}
use quarkgate.Proxy.State.{ProxyState}
use quarkgate.Redis.{Redis}
use quarkgate.Store.{Db}

pub record World : Type 0 where
  pub db : Db
  pub redis : Redis
  pub proxy : ProxyState

-- A call of internal/store or of internal/redis.
abbrev pub on_db : {A : Type 0} → Exec Db A → Exec World A
on_db m w = ((m w.db).0, record w { db = (m w.db).1 })

abbrev pub on_redis : {A : Type 0} → Exec Redis A → Exec World A
on_redis m w = ((m w.redis).0, record w { redis = (m w.redis).1 })
