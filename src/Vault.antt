-- ===== src/Vault.antt =====
-- internal/vault/store.go: the encrypted credentials of the providers. Encryption is a parameter.
pub mod Roundtrip
pub mod Cipher
use quarkgate.Exec.{
  Exec, err, failure, foreign_key_violation, no_rows, ok, or_fail, ◌>>=◌, Result, ◌>>◌,
}
use quarkgate.Models.{ProviderConfig, Uuid, VaultEntry}
use quarkgate.Prelude.{
  Bool, List, Option, Text, [], any, codes, find, if◌then◌else◌, none, some, ◌&&◌, ◌==◌, ◌∷◌,
  nat_eq, text_eq, int_eq,
}
use quarkgate.Store.{Db, Tables, statement}

module _ (encrypt : Text → Option Text) (decrypt : Text → Option Text) where
  abbrev pub is_entry : Uuid → Text → VaultEntry → Bool
  is_entry config label v = v.provider_config_id == config && v.label == label

  -- `INSERT … ON CONFLICT … DO UPDATE`
  unfoldable pub upsert_entry : Uuid → Text → Text → List VaultEntry → List VaultEntry
  upsert_entry config label blob [] =
      record { provider_config_id = config; label = label; blob = blob } ∷ []
  upsert_entry config label blob (v ∷ vs) =
      if is_entry config label v
      then record v { blob = blob } ∷ vs
      else v ∷ upsert_entry config label blob vs

  -- Put: the provider exists.
  unfoldable pub put_credential : Uuid → Text → Text → Exec Db (Unit {0})
  put_credential config label plain = do
    blob ← or_fail (encrypt plain) (failure (codes "encrypt"))
    statement λ t.
        if any (λ (p : ProviderConfig). p.id == config) t.providers
        then (ok tt, record t { vault = upsert_entry config label blob t.vault })
        else (err foreign_key_violation, t)

  -- The row that Get selects: no provider and no entry are no row.
  abbrev pub entry_blob : Option VaultEntry → Result Text
  entry_blob none = err no_rows
  entry_blob (some v) = ok v.blob

  abbrev pub provider_blob : Text → List VaultEntry → Option ProviderConfig → Result Text
  provider_blob label vault none = err no_rows
  provider_blob label vault (some p) = entry_blob (find (is_entry p.id label) vault)

  unfoldable pub find_blob : Text → Text → Exec Tables Text
  find_blob slug label t = (
    provider_blob label t.vault
        (find (λ (p : ProviderConfig). p.provider_slug == slug) t.providers),
    t,
  )

  -- Get
  unfoldable pub get_credential : Text → Text → Exec Db Text
  get_credential slug label = do
    blob ← statement (find_blob slug label)
    or_fail (decrypt blob) (failure (codes "decrypt"))
