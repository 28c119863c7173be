-- ===== src/Admin/ApiKeys.antt =====
-- create-key and revoke-key of cmd/admin/main.go.
pub mod Revoked
pub mod Created
use quarkgate.Admin.Base.{AdminCodec, line, uuid_arg}
use quarkgate.Exec.{◌>>=◌, ◌>>◌, Exec, Result, attempt, failure, ignore, lift, ok, or_fail, pure}
use quarkgate.Keys.{generate, key_to_cache}
use quarkgate.Models.{QuarkGateKey}
use quarkgate.Prelude.{Option, Text, [], codes, pos, some, ◌++◌, ◌∷◌, false}
use quarkgate.Redis.Values.{
  delete_key_id_index, delete_key_meta, get_key_id_index, set_key_id_index, set_key_meta,
}
use quarkgate.Store.Keys.{create_key, revoke_key}
use quarkgate.World.{World, on_db, on_redis}

module _ (codec : AdminCodec) where
  -- cacheAPIKey
  unfoldable pub cache_api_key : Text → QuarkGateKey → Exec World (Unit {0})
  cache_api_key token k = do
    cached ← or_fail (key_to_cache codec.show_uuid codec.marshal k) (failure (codes "json"))
    on_redis (set_key_meta (codec.hmac token) cached)
    on_redis (set_key_id_index (codec.show_uuid k.id) (codec.hmac token))

  -- create-key
  unfoldable pub create_key_command : Text → Text → Exec World Text
  create_key_command user name = do
    id ← uuid_arg codec user
    (full, prefix, hash) ← lift (generate codec.hash codec.secret false)
    k ← on_db (create_key id name prefix hash (some (codes "*" ∷ [])) (pos 120))
    cache_api_key full k
    pure (
        line (
          codes "key_id="
          ++ codec.show_uuid k.id
          ++ codes " api_key="
          ++ full
          ++ codes " (save this; shown once)"))

  -- Once the index of a key was read: without one, nothing is cached.
  unfoldable pub forget_key : Text → Result (Option Text) → Exec World (Unit {0})
  forget_key id (ok (some hash)) = do
    ignore (on_redis (delete_key_meta hash))
    ignore (on_redis (delete_key_id_index id))
  forget_key id _ = pure tt

  -- revoke-key
  unfoldable pub revoke_key_command : Text → Exec World Text
  revoke_key_command key = do
    id ← uuid_arg codec key
    on_db (revoke_key id)
    indexed ← attempt (on_redis (get_key_id_index (codec.show_uuid id)))
    forget_key (codec.show_uuid id) indexed
    pure (line (codes "key revoked"))
