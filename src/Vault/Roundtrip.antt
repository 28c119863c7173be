-- ===== src/Vault/Roundtrip.antt =====
-- Put and Get of internal/vault/store.go.
use quarkgate.Exec.{ok, Result, continue, err, failure, foreign_key_violation, or_fail}
use quarkgate.Models.{ProviderConfig, Uuid, VaultEntry}
use quarkgate.Prelude.{
  Bool-cases, List, Option, Text, [], arith, find, inl, inr, refl, some, text_beq_refl, ◌==◌, ◌∷◌,
  ◌≡◌, ap, false, ◌∙◌, Bool, codes, if◌then◌else◌, any, nat_eq, text_eq, int_eq,
}
use quarkgate.Store.{Tables, Db, statement-eq-ok, statement}
use quarkgate.Vault.{
  find_blob, is_entry, upsert_entry, entry_blob, get_credential, provider_blob, put_credential,
}

-- A statement that the database answers.
statement_up :
    {A : Type 0} (body : Tables → Result A × Tables) (db : Db) {a : A} {t' : Tables}
    → db.outage db.statements ≡ false
    → body db.tables ≡ (ok a, t')
    → (statement body db).0 ≡ ok a
unfolding statement
statement_up body db up e = rw (up, e) refl

module _ (encrypt : Text → Option Text) (decrypt : Text → Option Text) where
  -- The entry that was written is the one that is found.
  find-upsert_entry :
      (config : Uuid) (label blob : Text) (vs : List VaultEntry)
      → (v : VaultEntry) × (find
            (is_entry encrypt decrypt config label)
            (upsert_entry encrypt decrypt config label blob vs)
          ≡ some v)
        × (v.blob ≡ blob)
  unfolding upsert_entry
  find-upsert_entry config label blob [] = (
    record { provider_config_id = config; label = label; blob = blob },
    ground (arith, text_beq_refl label),
    refl,
  )
  find-upsert_entry config label blob (v ∷ vs) =
      let (found, e, same) = find-upsert_entry config label blob vs in
      elim (Bool-cases (is_entry encrypt decrypt config label v)) [
        | inl hit ↦ (record v { blob = blob }, rw hit (rw hit refl), refl)
        | inr miss ↦ (found, rw miss (rw miss e), same)
      ]

  find_blob-upsert_entry :
      (slug label blob : Text) (t : Tables) (p : ProviderConfig)
      → find (λ (q : ProviderConfig). q.provider_slug == slug) t.providers ≡ some p
      → (find_blob encrypt decrypt slug label
          (record t { vault = upsert_entry encrypt decrypt p.id label blob t.vault })).0
        ≡ ok blob
  unfolding find_blob
  find_blob-upsert_entry slug label blob t p e =
      let (v, found, same) = find-upsert_entry p.id label blob t.vault in
      ap
        (provider_blob encrypt decrypt label (upsert_entry encrypt decrypt p.id label blob t.vault))
        e
      ∙ ap (entry_blob encrypt decrypt) found
      ∙ ap ok same

  -- What Put has written for a provider's configuration and a label is what Get gives for the
  -- provider's name and the label, where the database answers, the name leads to that configuration,
  -- and what was encrypted is decrypted again. It does not matter what was there before.
  pub get_credential-put_credential :
      (slug label plain blob : Text) (db : Db) (p : ProviderConfig) {db' : Db}
      → find (λ (q : ProviderConfig). q.provider_slug == slug) db.tables.providers ≡ some p
      → encrypt plain ≡ some blob
      → decrypt blob ≡ some plain
      → put_credential encrypt decrypt p.id label plain db ≡ (ok tt, db')
      → db'.outage db'.statements ≡ false
      → (get_credential encrypt decrypt slug label db').0 ≡ ok plain
  unfolding put_credential get_credential find_blob
  get_credential-put_credential slug label plain blob db p {db'} named sealed opened wrote up =
      let vault = upsert_entry encrypt decrypt p.id label blob db.tables.vault in
      let after : db'.tables ≡ record db.tables { vault = vault } =
        written (any (λ (q : ProviderConfig). q.id == p.id) db.tables.providers)
          (record db.tables { vault = vault }) db.tables db'.tables
          (statement-eq-ok _ db (rw sealed at wrote)) in
      let read : find_blob encrypt decrypt slug label db'.tables ≡ (ok blob, db'.tables) =
        ap (λ r. (r, db'.tables))
          (ap (λ (t : Tables). (find_blob encrypt decrypt slug label t).0) after
            ∙ find_blob-upsert_entry slug label blob db.tables p named) in
      decrypted _ (statement_up (find_blob encrypt decrypt slug label) db' up read)
    where
      written :
          (b : Bool) (t₁ t t' : Tables)
          → ◌≡◌ {A = Result (Unit {0}) × Tables}
              (if b then (ok tt, t₁) else (err foreign_key_violation, t))
              (ok tt, t')
          → t' ≡ t₁
      written b t₁ t t' h = ground (arith, h)

      decrypted :
          (r : Result Text × Db)
          → r.0 ≡ ok blob
          → (continue r.0 (λ b. or_fail (decrypt b) (failure (codes "decrypt"))) r.1).0 ≡ ok plain
      decrypted (ok b, d) h = let same : b ≡ blob = ground (arith, h) in rw (same, opened) refl
      decrypted (err e, d) h = cc
