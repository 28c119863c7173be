-- ===== src/Vault/Cipher/Roundtrip.antt =====
-- What DecryptString of internal/vault/vault.go gives for the text of EncryptString.
use quarkgate.Prelude.{
  Text, [], ap, arith, drop, false, length, length-append, ltb, refl, replicate, some, suc, take,
  zero, ℕ, ◌++◌, ◌∷◌, ◌≡◌, ◌≤◌,
}
use quarkgate.Vault.Cipher.{Cipher, decrypt, decrypt_string, derive_key, encrypt, encrypt_string}

take-append : (xs ys : Text) → take (length xs) (xs ++ ys) ≡ xs
take-append [] ys = refl
take-append (x ∷ xs) ys = ap (λ zs. x ∷ zs) (take-append xs ys)

drop-append : (xs ys : Text) → drop (length xs) (xs ++ ys) ≡ ys
drop-append [] ys = refl
drop-append (x ∷ xs) ys = drop-append xs ys

length-take : (n : ℕ) (xs : Text) → n ≤ length xs → length (take n xs) ≡ n
length-take zero xs h = refl
length-take (suc n) [] h = absurd (omega arith)
length-take (suc n) (x ∷ xs) h = ap suc (length-take n xs (omega arith))

-- The key of the cipher has 32 bytes, whatever the configured text.
pub length-derive_key : (kek : Text) → length (derive_key kek) ≡ 32
unfolding derive_key
length-derive_key kek =
    length-take 32 (kek ++ replicate 32 0) (omega (arith, length-append {0} kek (replicate 32 0)))

module _ (cipher : Cipher) where
  -- What the AEAD and base64 promise: a text that was sealed opens under its nonce, and a text that
  -- was encoded is decoded.
  pub record IsCipher : Type 0 where
    pub opens :
        (nonce plain : Text) → cipher.open_sealed nonce (cipher.seal nonce plain) ≡ some plain
    pub decodes : (b : Text) → cipher.decode_base64 (cipher.encode_base64 b) ≡ some b

  -- A text that was encrypted under any nonce of the cipher's size is decrypted to what it was.
  pub decrypt_string-encrypt_string :
      (nonce s encoded : Text)
      → IsCipher
      → length nonce ≡ cipher.nonce_size
      → encrypt_string cipher (some nonce) s ≡ some encoded
      → decrypt_string cipher encoded ≡ some s
  unfolding encrypt_string decrypt_string encrypt decrypt
  decrypt_string-encrypt_string nonce s encoded law size written =
      let blob = nonce ++ cipher.seal nonce s in
      let same : cipher.encode_base64 blob ≡ encoded = cc written in
      let whole : ltb (length blob) (length nonce) ≡ false =
        ground (arith, length-append nonce (cipher.seal nonce s)) in
      rw
        (← same, decrypt_string, law.decodes blob, decrypt, ← size, whole, take-append, drop-append)
        (law.opens nonce s)
