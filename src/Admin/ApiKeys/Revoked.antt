-- ===== src/Admin/ApiKeys/Revoked.antt =====
-- A key that revoke-key of cmd/admin/main.go has revoked: AuthMiddleware does not find it any more, in
-- the cache or in the database.
use quarkgate.Admin.ApiKeys.{forget_key, revoke_key_command}
use quarkgate.Admin.Base.{AdminCodec}
use quarkgate.Exec.{Result, err, ok, continue}
use quarkgate.Gateway.Auth.{
  KeyCodec, cache_key, find_key_by_token_pg, use_or_find, find_key_by_token, cached_key,
}
use quarkgate.Gateway.Auth.Revoked.{find_key_by_token_pg-revoke_key}
use quarkgate.Keys.{key_to_cache}
use quarkgate.Models.{QuarkGateKey, Uuid}
use quarkgate.Prelude.{
  Option, Text, ap, arith, erase, lookup-erase, none, refl, some, text_beq_refl, ◌+◌, ◌∙◌, ◌≡◌,
  false, sym, ◌==◌, nat_eq, text_eq, int_eq,
}
use quarkgate.Redis.{IsUp, Redis, Server, command_up}
use quarkgate.Redis.Values.{
  delete_cell, delete_text, get_cell, get_text, delete_key_id_index, delete_key_meta,
  get_key_id_index, get_key_meta,
}
use quarkgate.Store.{Db}
use quarkgate.Store.Keys.{revoke_key}
use quarkgate.World.{World}

-- A deleted cell is gone, also after another is deleted.
get_cell-delete_cell :
    (key other : Text) (s : Server) → get_cell key (delete_cell other (delete_cell key s)) ≡ none
unfolding get_cell delete_cell
get_cell-delete_cell key other s = ground (
  arith,
  lookup-erase other key (erase key s.cells),
  lookup-erase key key s.cells,
  text_beq_refl key,
)

delete_text_server :
    (key : Text) (r : Redis)
    → IsUp r
    → (delete_text key r).1
      ≡ record r { server = delete_cell key r.server; commands = r.commands + 1 }
unfolding delete_text
delete_text_server key r up =
    ap (λ (p : Result (Unit {0}) × Redis). p.1) (command_up (λ s. (ok tt, delete_cell key s)) r up)

get_text-delete_text :
    (key other : Text) (r : Redis)
    → IsUp r
    → (get_text key (delete_text other (delete_text key r).1).1).0 ≡ ok none
unfolding get_text
get_text-delete_text key other r up =
    let r₁ : Redis = record r { server = delete_cell key r.server; commands = r.commands + 1 } in
    let r₂ : Redis = record r₁ {
      server = delete_cell other r₁.server;
      commands = r₁.commands + 1;
    } in
    rw (delete_text_server key r up, delete_text_server other r₁ up)
      (ap (λ (p : Result (Option Text) × Redis). p.0)
          (command_up (λ s. (ok (get_cell key s), s)) r₂ up)
        ∙ ap ok (get_cell-delete_cell key other r.server))

get_text-IsUp : (key : Text) (r : Redis) → IsUp r → IsUp (get_text key r).1
unfolding get_text
get_text-IsUp key r up n = rw (command_up (λ s. (ok (get_cell key s), s)) r up) (up n)

module _ (kc : KeyCodec) where
  cache_key-ok :
      (token : Text) (k : QuarkGateKey) (entry : Option Text) (w : World)
      → (cache_key kc token k entry w).0 ≡ ok k
  unfolding cache_key
  cache_key-ok token k none w = refl
  cache_key-ok token k (some text) w = refl

  -- The key that is used is the one that was found.
  use_or_find-eq-ok :
      (token : Text) (w : World) {k : QuarkGateKey}
      → (use_or_find kc token none w).0 ≡ ok k
      → (db : Db) × (find_key_by_token_pg kc token w.db ≡ (ok k, db))
  unfolding use_or_find
  use_or_find-eq-ok token w {k} e =
      used (find_key_by_token_pg kc token w.db).0 (find_key_by_token_pg kc token w.db).1 refl e
    where
      used :
          (r : Result QuarkGateKey) (db : Db)
          → find_key_by_token_pg kc token w.db ≡ (r, db)
          → (continue r
              (λ j. cache_key kc token j (key_to_cache kc.show_uuid kc.marshal j))
              (record w { db = db })).0
            ≡ ok k
          → (db : Db) × (find_key_by_token_pg kc token w.db ≡ (ok k, db))
      used (err x) db f h = cc
      used (ok j) db f h = (
        db,
        f
            ∙ ap (λ r. (r, db))
                (sym (
                    cache_key-ok token j (key_to_cache kc.show_uuid kc.marshal j)
                      (record w { db = db }))
                  ∙ h),
      )

  -- Where the key's cache entry is gone, only the database counts.
  find_key_by_token-eq-ok :
      (token : Text) (w : World) {k : QuarkGateKey}
      → (get_key_meta (kc.hmac token) w.redis).0 ≡ ok none
      → (find_key_by_token kc token w).0 ≡ ok k
      → (db : Db) × (find_key_by_token_pg kc token w.db ≡ (ok k, db))
  unfolding find_key_by_token cached_key
  find_key_by_token-eq-ok token w {k} gone e =
      use_or_find-eq-ok token (record w { redis = (get_key_meta (kc.hmac token) w.redis).1 })
        (rw gone at e)

module _ (codec : AdminCodec) where
  -- What revoke-key leaves, where the index names the key's cache entry.
  after_revoke :
      (key : Text) (id : Uuid) (hash : Text) (w : World) (db : Db)
      → codec.parse_uuid key ≡ some id
      → revoke_key id w.db ≡ (ok tt, db)
      → (get_key_id_index (codec.show_uuid id) w.redis).0 ≡ ok (some hash)
      → (revoke_key_command codec key w).1 ≡ record w {
        db = db;
        redis =
            (delete_key_id_index
              (codec.show_uuid id)
              (delete_key_meta hash (get_key_id_index (codec.show_uuid id) w.redis).1).1).1;
      }
  unfolding revoke_key_command forget_key
  after_revoke key id hash w db parsed revoked indexed = rw (parsed, revoked, indexed) refl

  -- Once revoke-key has revoked a key in the database, while Redis is up and its index names the
  -- entry under which the token is cached, the token finds no key with that id, in the cache or in
  -- the database.
  pub find_key_by_token-revoke_key_command :
      (kc : KeyCodec) (key token : Text) (id : Uuid) (w : World) (db : Db) {k : QuarkGateKey}
      → IsUp w.redis
      → codec.parse_uuid key ≡ some id
      → revoke_key id w.db ≡ (ok tt, db)
      → (get_key_id_index (codec.show_uuid id) w.redis).0 ≡ ok (some (kc.hmac token))
      → (find_key_by_token kc token (revoke_key_command codec key w).1).0 ≡ ok k
      → (k.id == id) ≡ false
  unfolding delete_key_id_index delete_key_meta get_key_meta get_key_id_index
  find_key_by_token-revoke_key_command kc key token id w db up parsed revoked indexed found =
      let r = (get_key_id_index (codec.show_uuid id) w.redis).1 in
      let left = after_revoke key id (kc.hmac token) w db parsed revoked indexed in
      let (after, in_db) =
        find_key_by_token-eq-ok kc token
          (record w {
            db = db;
            redis =
                (delete_key_id_index (codec.show_uuid id) (delete_key_meta (kc.hmac token) r).1).1;
          })
          (get_text-delete_text _ _ r (get_text-IsUp _ w.redis up)) (rw left at found) in
      find_key_by_token_pg-revoke_key kc id token w.db db revoked in_db
