-- ===== src/Gateway/Auth/Revoked.antt =====
-- Which keys AuthMiddleware of internal/gateway/middleware.go finds in the database.
use quarkgate.Exec.{ok, Error, Result, or_fail}
use quarkgate.Gateway.Auth.{KeyCodec, find_key_by_token_pg}
use quarkgate.Models.{QuarkGateKey, Time, Uuid}
use quarkgate.Prelude.{
  Bool, Bool-cases, List, Text, [], arith, false, find, inl, inr, select, some, true, ◌==◌, ◌∷◌,
  ◌≡◌, take, ◌&&◌, Option, ap, none, nat_eq, text_eq, int_eq,
}
use quarkgate.Store.{Db, bind-statement-eq-ok, Tables, statement-eq-ok}
use quarkgate.Store.Keys.{is_candidate, revoke_in, active_keys_by_prefix, is_active, revoke_key}

-- What is found in a selection meets both tests.
find-select :
    {A : Type 0} (p q : A → Bool) (xs : List A) {x : A}
    → find q (select p xs) ≡ some x
    → (p x ≡ true) × (q x ≡ true)
find-select p q [] h = cc
find-select p q (y ∷ ys) {x} h = elim (Bool-cases (p y)) [
  | inr out ↦ find-select p q ys (rw out at h)
  | inl there ↦ elim (Bool-cases (q y)) [
    | inl hit ↦ ground (arith, rw (there, hit) at h)
    | inr miss ↦ find-select p q ys (rw (there, miss) at h)
  ]
]

-- No active key of the list of keys has the revoked id.
find-revoke_in :
    (id : Uuid) (now : Time) (prefix : Text) (q : QuarkGateKey → Bool) (ks : List QuarkGateKey)
    {k : QuarkGateKey}
    → find q (select (is_candidate prefix) (revoke_in id now ks)) ≡ some k
    → (k.id == id) ≡ false
find-revoke_in id now prefix q [] h = cc
find-revoke_in id now prefix q (j ∷ ks) {k} h = elim (Bool-cases (j.key_prefix == prefix)) [
  | inr strange ↦ elim (Bool-cases (j.id == id && is_active j.status)) [
    | inl gone ↦ find-revoke_in id now prefix q ks (rw (gone, strange) at h)
    | inr kept ↦ find-revoke_in id now prefix q ks (rw (kept, strange) at h)
  ]
  | inl fits ↦ elim (Bool-cases (is_active j.status)) [
    | inr inactive ↦ elim (Bool-cases (j.id == id)) [
      | inl same ↦ find-revoke_in id now prefix q ks (rw (same, inactive, fits, inactive) at h)
      | inr other ↦ find-revoke_in id now prefix q ks (rw (other, fits, inactive) at h)
    ]
    | inl usable ↦ elim (Bool-cases (j.id == id)) [
      | inl same ↦ find-revoke_in id now prefix q ks (rw (same, usable, fits) at h)
      | inr other ↦ elim (Bool-cases (q j)) [
        | inl hit ↦ ground (arith, rw (other, fits, usable, hit) at h, other)
        | inr miss ↦ find-revoke_in id now prefix q ks (rw (other, fits, usable, miss) at h)
      ]
    ]
  ]
]

or_fail-eq-ok :
    {S A : Type 0} (o : Option A) (e : Error) (s : S) {a : A} {s' : S}
    → or_fail o e s ≡ (ok a, s')
    → o ≡ some a
or_fail-eq-ok none e s h = cc
or_fail-eq-ok (some b) e s h = ground (arith, h)

module _ (codec : KeyCodec) where
  -- What was found is the first key that fits, of the selected keys.
  find_key_by_token_pg-eq-ok :
      (token : Text) (db : Db) {k : QuarkGateKey} {db' : Db}
      → find_key_by_token_pg codec token db ≡ (ok k, db')
      → find
          (λ (j : QuarkGateKey). codec.compare_hash j.key_hash token)
          (select (is_candidate (take 12 token)) db.tables.keys)
        ≡ some k
  unfolding find_key_by_token_pg active_keys_by_prefix
  find_key_by_token_pg-eq-ok token db {k} {db'} e =
      let (ks, db₁, selected, found) =
        bind-statement-eq-ok (λ t. (ok (select (is_candidate (take 12 token)) t.keys), t)) _ db e in
      let same : select (is_candidate (take 12 token)) db.tables.keys ≡ ks =
        ground (arith, selected) in
      rw same (or_fail-eq-ok _ _ db₁ found)

  -- A key found in the database is active, has the token's prefix, and its hash fits the token.
  pub find_key_by_token_pg-IsValid :
      (token : Text) (db : Db) {k : QuarkGateKey} {db' : Db}
      → find_key_by_token_pg codec token db ≡ (ok k, db')
      → (is_candidate (take 12 token) k ≡ true) × (codec.compare_hash k.key_hash token ≡ true)
  find_key_by_token_pg-IsValid token db e =
      find-select (is_candidate (take 12 token))
        (λ (j : QuarkGateKey). codec.compare_hash j.key_hash token) db.tables.keys
        (find_key_by_token_pg-eq-ok token db e)

  -- Once a key is revoked, no token finds it in the database.
  pub find_key_by_token_pg-revoke_key :
      (id : Uuid) (token : Text) (db db₁ : Db) {k : QuarkGateKey} {db₂ : Db}
      → revoke_key id db ≡ (ok tt, db₁)
      → find_key_by_token_pg codec token db₁ ≡ (ok k, db₂)
      → (k.id == id) ≡ false
  unfolding revoke_key
  find_key_by_token_pg-revoke_key id token db db₁ {k} revoked e =
      let keys : revoke_in id db.tables.now db.tables.keys ≡ db₁.tables.keys =
        ap (λ (r : Result (Unit {0}) × Tables). r.1.keys) (statement-eq-ok _ db revoked) in
      find-revoke_in id db.tables.now (take 12 token)
        (λ (j : QuarkGateKey). codec.compare_hash j.key_hash token) db.tables.keys
        (rw (← keys) at (find_key_by_token_pg-eq-ok token db₁ e))
