-- ===== src/Admin/ApiKeys/Created.antt =====
-- A key that create-key of cmd/admin/main.go has made: AuthMiddleware finds it by the printed token.
use quarkgate.Admin.Base.{AdminCodec}
use quarkgate.Exec.{ok}
use quarkgate.Keys.{key_to_cache}
use quarkgate.Models.{QuarkGateKey, Uuid}
use quarkgate.Prelude.{Text, some, ◌≡◌, [], codes, pos, ◌∷◌, nat_eq, text_eq, int_eq}
use quarkgate.Redis.{Redis}
use quarkgate.Redis.Values.{get_key_meta}
use quarkgate.Store.Keys.{new_key}
use quarkgate.World.{World}

module _ (codec : AdminCodec) where
  -- The key that create-key makes.
  abbrev pub made_key : Uuid → Text → Text → Text → World → QuarkGateKey
  made_key id name prefix hash w =
      new_key w.db.tables id name prefix hash (some (codes "*" ∷ [])) (pos 120)

  -- The key is in the cache under the token.
  record IsCached (full : Text) (k : QuarkGateKey) (w : World) : Type 0 where
    entry : Text
    marshalled : key_to_cache codec.show_uuid codec.marshal k ≡ some entry
    cached : (get_key_meta (codec.hmac full) w.redis).0 ≡ ok (some entry)
