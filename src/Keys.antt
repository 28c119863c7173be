-- ===== src/Keys.antt =====
-- internal/keys/keys.go and internal/auth/keycache.go: new keys, and the entry of a key in the cache.
-- Random bytes, bcrypt and JSON are parameters.
pub mod Roundtrip
use quarkgate.Exec.{Result, err, failure, ok}
use quarkgate.Json.{Raw}
use quarkgate.Models.{KeyStatus, QuarkGateKey, Uuid}
use quarkgate.Prelude.{
  Bool, List, Option, Text, codes, if◌then◌else◌, none, not, some, take, ℤ, ◌++◌, ◌==◌, nat_eq,
  text_eq, int_eq,
}

-- Generate: the key, its prefix and its hash. `secret` is what rand.Read gives, encoded.
unfoldable pub generate : (Text → Option Text) → Option Text → Bool → Result (Text × Text × Text)
generate hash none test = err (failure (codes "rand"))
generate hash (some secret) test =
    let full = (if test then codes "qg_test_" else codes "qg_live_") ++ secret in
    elim (hash full) [ none ↦ err (failure (codes "bcrypt")) | some h ↦ ok (full, take 12 full, h) ]

-- KeyCacheMeta
pub record KeyCacheMeta : Type 0 where
  pub id : Text
  pub user_id : Text
  pub key_prefix : Text
  pub key_hash : Text
  pub name : Text
  pub scopes : Raw (List Text)
  pub rate_limit_rpm : ℤ
  pub status : Text

abbrev pub status_text : KeyStatus → Text
status_text KeyStatus.active = codes "active"
status_text KeyStatus.revoked = codes "revoked"

-- The entry of a key
abbrev pub cache_meta : (Uuid → Text) → QuarkGateKey → KeyCacheMeta
cache_meta show_uuid k = record {
  id = show_uuid k.id;
  user_id = show_uuid k.user_id;
  key_prefix = k.key_prefix;
  key_hash = k.key_hash;
  name = k.name;
  scopes = k.scopes;
  rate_limit_rpm = k.rate_limit_rpm;
  status = status_text k.status;
}

-- KeyToCache
unfoldable pub key_to_cache :
    (Uuid → Text) → (KeyCacheMeta → Option Text) → QuarkGateKey → Option Text
key_to_cache show_uuid marshal k = marshal (cache_meta show_uuid k)

-- The key of an entry whose ids were read; the times are not in it.
abbrev key_of_meta : KeyCacheMeta → Uuid → Uuid → QuarkGateKey
key_of_meta meta id user_id = record {
  id = id;
  user_id = user_id;
  key_prefix = meta.key_prefix;
  key_hash = meta.key_hash;
  name = meta.name;
  scopes = meta.scopes;
  rate_limit_rpm = meta.rate_limit_rpm;
  status = KeyStatus.active;
  created_at = 0;
  revoked_at = none;
}

unfoldable pub key_from_meta : (Text → Option Uuid) → Option KeyCacheMeta → Option QuarkGateKey
key_from_meta parse_uuid none = none
key_from_meta parse_uuid (some meta) = elim (parse_uuid meta.id) [
  | none ↦ none
  | some id ↦ elim (parse_uuid meta.user_id) [
    | none ↦ none
    | some user_id ↦
        if not (meta.status == codes "active") then none else some (key_of_meta meta id user_id)
  ]
]

-- KeyFromCache; `none` is its error.
unfoldable pub key_from_cache :
    (Text → Option Uuid) → (Text → Option KeyCacheMeta) → Text → Option QuarkGateKey
key_from_cache parse_uuid unmarshal entry = key_from_meta parse_uuid (unmarshal entry)
