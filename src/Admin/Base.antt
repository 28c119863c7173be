-- ===== src/Admin/Base.antt =====
-- What the commands of cmd/admin/main.go share. JSON, UUIDs, numbers, hashing, encryption and the
-- drivers' processes are parameters; so are random bytes and the clock.
use quarkgate.Exec.{Exec, Result, failure, or_fail}
use quarkgate.Keys.{KeyCacheMeta}
use quarkgate.Models.{TxnType, UsageLog, Uuid}
use quarkgate.Prelude.{Bool, Option, Text, [], codes, ℤ, ◌++◌, ◌∷◌, ℕ}
use quarkgate.Registry.Invoke.{HealthResult, Host, Registry}
use quarkgate.Vault.Cipher.{Cipher}
use quarkgate.World.{World}

pub record AdminCodec : Type 0 where
  pub parse_uuid : Text → Option Uuid
  pub show_uuid : Uuid → Text
  pub format_int64 : ℤ → Text
  pub parse_int64 : Text → Option ℤ
  pub format_bool : Bool → Text
  pub scan_int64 : Text → Option ℤ
  pub nanos : World → Text
  pub secret : Option Text
  pub hash : Text → Option Text
  pub hmac : Text → Text
  pub marshal : KeyCacheMeta → Option Text
  pub cipher : Cipher
  pub nonce : Option Text
  pub host : Host
  pub registry : Result Registry
  pub encode_health : HealthResult → Text
  pub encode_usage_log : UsageLog → Text
  pub type_text : TxnType → Text
  pub message_id : ℕ → Text

abbrev pub line : Text → Text
line t = t ++ 10 ∷ []

module _ (codec : AdminCodec) where
  abbrev pub uuid_arg : Text → Exec World Uuid
  uuid_arg t = or_fail (codec.parse_uuid t) (failure (codes "uuid"))
