-- ===== src/Redis/Values.antt =====
-- The plain commands of internal/redis/client.go. Formatting and reading an int64 are parameters.
use quarkgate.Exec.{Exec, fail, failure, ok, pure, ◌>>=◌}
use quarkgate.Models.{Time}
use quarkgate.Prelude.{
  Option, Text, arith, codes, erase, if◌then◌else◌, insert, leb, lookup, lookup-insert, nat_beq,
  none, some, ℤ, ◌+◌, ◌==◌, ◌≡◌, nat_eq, text_eq, int_eq,
}
use quarkgate.Redis.{Cell, Redis, Server, command}
use quarkgate.Redis.Keys.{balance_key, hold_key, idem_key, key_id_index_key, key_meta_key}

-- A cell that has not expired.
abbrev pub live : Time → Option Cell → Option Text
live now none = none
live now (some c) = elim c.expires [
  | none ↦ some c.value
  | some t ↦ if leb t now then none else some c.value
]

unfoldable pub get_cell : Text → Server → Option Text
get_cell key s = live s.now (lookup key s.cells)

-- `SET key value` with a lifetime of `ttl` seconds, 0 for none
unfoldable pub set_cell : Text → Text → Time → Server → Server
set_cell key value ttl s = record s {
  cells =
      insert key
        (record { value = value; expires = if nat_beq ttl 0 then none else some (s.now + ttl) })
        s.cells;
}

unfoldable pub delete_cell : Text → Server → Server
delete_cell key s = record s { cells = erase key s.cells }

unfoldable pub set_text : Text → Text → Time → Exec Redis (Unit {0})
set_text key value ttl = command λ s. (ok tt, set_cell key value ttl s)

unfoldable pub get_text : Text → Exec Redis (Option Text)
get_text key = command λ s. (ok (get_cell key s), s)

unfoldable pub delete_text : Text → Exec Redis (Unit {0})
delete_text key = command λ s. (ok tt, delete_cell key s)

abbrev pub day : Time
day = 86400

-- SetKeyMeta, GetKeyMeta, DeleteKeyMeta
unfoldable pub set_key_meta : Text → Text → Exec Redis (Unit {0})
set_key_meta hash meta = set_text (key_meta_key hash) meta day

unfoldable pub get_key_meta : Text → Exec Redis (Option Text)
get_key_meta hash = get_text (key_meta_key hash)

unfoldable pub delete_key_meta : Text → Exec Redis (Unit {0})
delete_key_meta hash = delete_text (key_meta_key hash)

-- SetKeyIDIndex, GetKeyIDIndex, DeleteKeyIDIndex
unfoldable pub set_key_id_index : Text → Text → Exec Redis (Unit {0})
set_key_id_index id hash = set_text (key_id_index_key id) hash day

unfoldable pub get_key_id_index : Text → Exec Redis (Option Text)
get_key_id_index id = get_text (key_id_index_key id)

unfoldable pub delete_key_id_index : Text → Exec Redis (Unit {0})
delete_key_id_index id = delete_text (key_id_index_key id)

-- SetIdempotency, GetIdempotency
unfoldable pub set_idempotency : Text → Text → Time → Exec Redis (Unit {0})
set_idempotency key value ttl = set_text (idem_key key) value ttl

unfoldable pub get_idempotency : Text → Exec Redis (Option Text)
get_idempotency key = get_text (idem_key key)

module _ (format_int : ℤ → Text) (parse_int : Text → Option ℤ) where
  -- `Get(…).Int64()`
  unfoldable pub get_int64 : Text → Exec Redis (Option ℤ)
  get_int64 key = do
    value ← get_text key
    elim value [
      | none ↦ pure none
      | some v ↦ elim (parse_int v) [
        | none ↦ fail (failure (codes "strconv.ParseInt"))
        | some n ↦ pure (some n)
      ]
    ]

  -- SetBalance, GetBalance
  unfoldable pub set_balance : Text → ℤ → Exec Redis (Unit {0})
  set_balance user micro = set_text (balance_key user) (format_int micro) 0

  unfoldable pub get_balance : Text → Exec Redis (Option ℤ)
  get_balance user = get_int64 (balance_key user)

  -- SetHold, GetHold, DeleteHold
  unfoldable pub set_hold : Text → ℤ → Time → Exec Redis (Unit {0})
  set_hold request micro ttl = set_text (hold_key request) (format_int micro) ttl

  unfoldable pub get_hold : Text → Exec Redis (Option ℤ)
  get_hold request = get_int64 (hold_key request)

  unfoldable pub delete_hold : Text → Exec Redis (Unit {0})
  delete_hold request = delete_text (hold_key request)

-- A value that was set, for any lifetime, is what is read next at the same time, and the value under
-- every other key is as before.
pub get_cell-set_cell :
    (key other value : Text) (ttl : Time) (s : Server)
    → get_cell other (set_cell key value ttl s)
      ≡ (if key == other then some value else get_cell other s)
unfolding get_cell set_cell
get_cell-set_cell key other value ttl s = ground (
  arith,
  lookup-insert key other
      (record { value = value; expires = if nat_beq ttl 0 then none else some (s.now + ttl) })
      s.cells,
)
