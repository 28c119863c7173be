-- ===== src/Vault/Cipher.antt =====
-- internal/vault/vault.go: the encryption of a credential. AES-GCM, random bytes and base64 are
-- parameters.
pub mod Roundtrip
use quarkgate.Prelude.{
  replicate, Option, Text, drop, if◌then◌else◌, length, ltb, none, some, take, ℕ, ◌++◌,
}

-- cipher.AEAD: Seal and Open with a nonce, and base64.StdEncoding.
pub record Cipher : Type 0 where
  pub nonce_size : ℕ
  pub seal : Text → Text → Text
  pub open_sealed : Text → Text → Option Text
  pub encode_base64 : Text → Text
  pub decode_base64 : Text → Option Text

-- deriveKey: 32 bytes, the text cut or filled up with zeros.
unfoldable pub derive_key : Text → Text
derive_key kek = take 32 (kek ++ replicate 32 0)

module _ (cipher : Cipher) where
  -- Encrypt: `nonce` is what rand.Reader gives.
  unfoldable pub encrypt : Option Text → Text → Option Text
  encrypt none plain = none
  encrypt (some nonce) plain = some (nonce ++ cipher.seal nonce plain)

  -- Decrypt
  unfoldable pub decrypt : Text → Option Text
  decrypt blob =
      if ltb (length blob) cipher.nonce_size
      then none
      else cipher.open_sealed (take cipher.nonce_size blob) (drop cipher.nonce_size blob)

  -- EncryptString
  unfoldable pub encrypt_string : Option Text → Text → Option Text
  encrypt_string nonce s = elim (encrypt nonce s) [
    | none ↦ none
    | some b ↦ some (cipher.encode_base64 b)
  ]

  -- DecryptString
  unfoldable pub decrypt_string : Text → Option Text
  decrypt_string encoded = elim (cipher.decode_base64 encoded) [
    | none ↦ none
    | some blob ↦ decrypt blob
  ]
