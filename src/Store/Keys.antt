-- ===== src/Store/Keys.antt =====
-- The key operations of internal/store/store.go, and the key query of findKeyByTokenPG in
-- internal/gateway/middleware.go.
use quarkgate.Exec.{Exec, err, foreign_key_violation, no_rows, ok, unique_violation}
use quarkgate.Json.{Raw}
use quarkgate.Models.{KeyStatus, QuarkGateKey, Time, Uuid}
use quarkgate.Prelude.{
  Bool, List, Text, [], any, false, find, if◌then◌else◌, is_some, none, select, some, true,
  update_where, ℤ, ◌&&◌, ◌++◌, ◌+◌, ◌==◌, ◌∷◌, nat_eq, text_eq, int_eq,
}
use quarkgate.Store.{Db, Tables, statement}
use quarkgate.Store.Rows.{find_user}

abbrev pub is_active : KeyStatus → Bool
is_active KeyStatus.active = true
is_active KeyStatus.revoked = false

abbrev pub new_key : Tables → Uuid → Text → Text → Text → Raw (List Text) → ℤ → QuarkGateKey
new_key t user name prefix hash scopes rpm = record {
  id = t.next_uuid;
  user_id = user;
  key_prefix = prefix;
  key_hash = hash;
  name = name;
  scopes = scopes;
  rate_limit_rpm = rpm;
  status = KeyStatus.active;
  created_at = t.now;
  revoked_at = none;
}

-- CreateKey: the hash is unique, and the user exists.
unfoldable pub create_key : Uuid → Text → Text → Text → Raw (List Text) → ℤ → Exec Db QuarkGateKey
create_key user name prefix hash scopes rpm = statement λ t.
    if any (λ (k : QuarkGateKey). k.key_hash == hash) t.keys
    then (err unique_violation, t)
    else if is_some (find_user user t.users)
    then (
      ok (new_key t user name prefix hash scopes rpm),
      record t {
        keys = t.keys ++ new_key t user name prefix hash scopes rpm ∷ [];
        next_uuid = t.next_uuid + 1;
      },
    )
    else (err foreign_key_violation, t)

-- FindKeyByHash
unfoldable pub find_key_by_hash : Text → Exec Db QuarkGateKey
find_key_by_hash hash = statement λ t. (
  elim (find (λ (k : QuarkGateKey). (k.key_hash == hash) && is_active k.status) t.keys) [
    | none ↦ err no_rows
    | some k ↦ ok k
  ],
  t,
)

-- RevokeKey; a key that is not there or not active is no error.
abbrev pub revoke_in : Uuid → Time → List QuarkGateKey → List QuarkGateKey
revoke_in id now =
    update_where (λ (k : QuarkGateKey). (k.id == id) && is_active k.status)
      (λ k. record k { status = KeyStatus.revoked; revoked_at = some now })

unfoldable pub revoke_key : Uuid → Exec Db (Unit {0})
revoke_key id = statement λ t. (ok tt, record t { keys = revoke_in id t.now t.keys })

-- `… WHERE key_prefix = $1 AND status = 'active'`
abbrev pub is_candidate : Text → QuarkGateKey → Bool
is_candidate prefix k = (k.key_prefix == prefix) && is_active k.status

unfoldable pub active_keys_by_prefix : Text → Exec Db (List QuarkGateKey)
active_keys_by_prefix prefix = statement λ t. (ok (select (is_candidate prefix) t.keys), t)
