-- ===== src/Keys/Roundtrip.antt =====
-- What internal/auth/keycache.go reads back of a cached key.
use quarkgate.Keys.{
  KeyCacheMeta, key_from_cache, key_to_cache, status_text, key_from_meta, cache_meta,
}
use quarkgate.Models.{KeyStatus, QuarkGateKey, Uuid}
use quarkgate.Prelude.{Option, Text, none, refl, some, ◌≡◌, ap, sym}

-- An active key is read back from its entry, but for its times; a revoked one is refused.
abbrev pub ReadBack : KeyStatus → QuarkGateKey → Option QuarkGateKey → Type 0
ReadBack KeyStatus.active k o = o ≡ some (record k { created_at = 0; revoked_at = none })
ReadBack KeyStatus.revoked k o = o ≡ none

module _ (show_uuid : Uuid → Text) (parse_uuid : Text → Option Uuid)
    (marshal : KeyCacheMeta → Option Text) (unmarshal : Text → Option KeyCacheMeta) where
  -- The JSON of the key's entry and the text of a UUID are read back as they were written.
  pub record ReadsBack (k : QuarkGateKey) : Type 0 where
    pub uuids : (u : Uuid) → parse_uuid (show_uuid u) ≡ some u
    pub entries :
        (entry : Text)
        → marshal (cache_meta show_uuid k) ≡ some entry
        → unmarshal entry ≡ some (cache_meta show_uuid k)

  -- The cache entry of an active key gives the key back, with all but its times; the entry of a
  -- revoked key gives none.
  pub key_from_cache-key_to_cache :
      (k : QuarkGateKey) (entry : Text)
      → ReadsBack k
      → key_to_cache show_uuid marshal k ≡ some entry
      → ReadBack k.status k (key_from_cache parse_uuid unmarshal entry)
  unfolding key_to_cache key_from_cache key_from_meta
  key_from_cache-key_to_cache k entry codec written =
      rw (codec.entries entry written) (by_status k.status refl)
    where
      by_status :
          (s : KeyStatus)
          → k.status ≡ s
          → ReadBack s k (
              key_from_cache parse_uuid
                (λ _. some (record {
                  id = show_uuid k.id;
                  user_id = show_uuid k.user_id;
                  key_prefix = k.key_prefix;
                  key_hash = k.key_hash;
                  name = k.name;
                  scopes = k.scopes;
                  rate_limit_rpm = k.rate_limit_rpm;
                  status = status_text s;
                }))
                entry)
      by_status KeyStatus.active e =
          rw (codec.uuids k.id, codec.uuids k.user_id, key_from_cache, key_from_meta)
            (ap
              (λ (st : KeyStatus).
                some (record k { status = st; created_at = 0; revoked_at = none }))
              (sym e))
      by_status KeyStatus.revoked e =
          rw (codec.uuids k.id, codec.uuids k.user_id, key_from_cache, key_from_meta) refl
