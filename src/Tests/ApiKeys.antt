-- ===== src/Tests/ApiKeys.antt =====
-- The theorems on keys, with two keys that share a prefix, and on the cipher.
use quarkgate.Admin.ApiKeys.{revoke_key_command, forget_key, create_key_command}
use quarkgate.Admin.ApiKeys.Created.{made_key}
use quarkgate.Admin.ApiKeys.Revoked.{find_key_by_token-revoke_key_command}
use quarkgate.Admin.Base.{AdminCodec, line}
use quarkgate.Exec.{err, failure, ok}
use quarkgate.Gateway.Auth.{
  find_key_by_token, cache_key, cached_key, find_key_by_token_pg, use_or_find, KeyCodec,
}
use quarkgate.Keys.{cache_meta, key_to_cache}
use quarkgate.Models.{QuarkGateKey, Uuid}
use quarkgate.Prelude.{
  Option, Text, [], codes, erase, false, insert, lookup, none, refl, some, ◌==◌, ◌∷◌, ◌≡◌, ◌++◌,
  nat_eq, text_eq, int_eq,
}
use quarkgate.Redis.{IsUp, command}
use quarkgate.Redis.Keys.{key_id_index_key, key_meta_key}
use quarkgate.Redis.Values.{
  delete_cell, delete_key_id_index, delete_key_meta, delete_text, get_cell, get_key_id_index,
  get_key_meta, get_text, set_cell, set_key_id_index, set_text,
}
use quarkgate.Store.{Db, statement}
use quarkgate.Store.Keys.{revoke_key, active_keys_by_prefix}
use quarkgate.Tests.Credits.{database}
use quarkgate.Tests.Gateway.{key_codec, token, vast_key}
use quarkgate.Tests.Handler.{no_host}
use quarkgate.Tests.Redis.{world}
use quarkgate.Tests.Replay.{show}
use quarkgate.Vault.Cipher.{Cipher, decrypt_string, encrypt_string, encrypt}
use quarkgate.Vault.Cipher.Roundtrip.{IsCipher, decrypt_string-encrypt_string}
use quarkgate.World.{World}

abbrev second_key : QuarkGateKey
second_key = record vast_key { id = 6 }

abbrev two_keys : Db
two_keys = record database { tables = record database.tables { keys = vast_key ∷ second_key ∷ [] } }

-- The first key is cached under its token.
abbrev key_world : World
key_world = record world { db = two_keys; redis = (set_key_id_index (show 5) token world.redis).1 }

abbrev parse : Text → Option Uuid
parse [] = none
parse (n ∷ t) = some n

abbrev plain_cipher : Cipher
plain_cipher = record {
  nonce_size = 2;
  seal = λ nonce plain. plain;
  open_sealed = λ nonce sealed. some sealed;
  encode_base64 = λ b. b;
  decode_base64 = λ t. some t;
}

abbrev pub admin_codec : AdminCodec
admin_codec = record {
  parse_uuid = parse;
  show_uuid = show;
  format_int64 = λ a. [];
  parse_int64 = λ t. none;
  format_bool = λ b. [];
  scan_int64 = λ t. none;
  nanos = λ w. [];
  secret = none;
  hash = λ t. some t;
  hmac = λ t. t;
  marshal = λ m. none;
  cipher = plain_cipher;
  nonce = none;
  host = no_host;
  registry = err (failure []);
  encode_health = λ h. [];
  encode_usage_log = λ l. [];
  type_text = λ t. [];
  message_id = λ n. [];
}

abbrev revoked : Db
revoked = (revoke_key 5 two_keys).1

revoked_run : revoke_key 5 two_keys ≡ (ok tt, revoked)
unfolding revoke_key statement
revoked_run = refl

indexed_run : (get_key_id_index (show 5) key_world.redis).0 ≡ ok (some token)
unfolding get_key_id_index set_key_id_index set_text get_text command get_cell set_cell lookup
    insert key_id_index_key
indexed_run = refl

key_world-IsUp : IsUp key_world.redis
unfolding set_key_id_index set_text command
key_world-IsUp n = refl

second_found :
    (find_key_by_token key_codec token (revoke_key_command admin_codec (5 ∷ []) key_world).1).0
    ≡ ok second_key
unfolding find_key_by_token use_or_find cached_key cache_key find_key_by_token_pg
    active_keys_by_prefix statement revoke_key_command forget_key revoke_key get_key_meta
    get_key_id_index set_key_id_index delete_key_meta delete_key_id_index set_text get_text
    delete_text command get_cell set_cell delete_cell lookup insert erase key_id_index_key
    key_meta_key key_to_cache
second_found = refl

find_key_by_token-revoke_key_command_example : (second_key.id == 5) ≡ false
find_key_by_token-revoke_key_command_example =
    find_key_by_token-revoke_key_command admin_codec key_codec (5 ∷ []) token 5 key_world revoked
      key_world-IsUp refl revoked_run indexed_run second_found

-- A new key of alice's.
abbrev key_maker : AdminCodec
key_maker = record admin_codec {
  secret = some (codes "secret");
  marshal = λ meta. some (codes "entry");
}

abbrev secret_key : Text
secret_key = codes "qg_live_secret"

abbrev made : QuarkGateKey
made = made_key key_maker 1 (codes "laptop") (codes "qg_live_secr") secret_key key_world

abbrev key_finder : KeyCodec
key_finder = record key_codec { unmarshal = λ t. some (cache_meta show made); parse_uuid = parse }

abbrev made_world : World
made_world = (create_key_command key_maker (1 ∷ []) (codes "laptop") key_world).1

abbrev key_printed : Text
key_printed = line (
    codes "key_id="
    ++ show 3
    ++ codes " api_key="
    ++ secret_key
    ++ codes " (save this; shown once)")

plain_cipher-IsCipher : IsCipher plain_cipher
plain_cipher-IsCipher = record { opens = λ nonce plain. refl; decodes = λ b. refl }

decrypt_string-encrypt_string_example :
    decrypt_string plain_cipher (codes "nosecret") ≡ some (codes "secret")
decrypt_string-encrypt_string_example =
    decrypt_string-encrypt_string plain_cipher (codes "no") (codes "secret") (codes "nosecret")
      plain_cipher-IsCipher refl (unfold encrypt_string encrypt in refl)
