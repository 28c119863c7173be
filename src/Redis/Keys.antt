-- ===== src/Redis/Keys.antt =====
-- The key functions of internal/redis/client.go, and that their ranges are apart.
use quarkgate.Prelude.{
  Text, [], ap, append_assoc, arith, codes, length, length-append, refl, sym, ◌++◌, ◌∙◌, ◌∷◌, ◌≡◌,
  ℕ, ◌*◌, ◌+◌,
}

unfoldable pub balance_key : Text → Text
balance_key user = codes "balance:" ++ user

unfoldable pub hold_key : Text → Text
hold_key request = codes "hold:" ++ request

unfoldable pub key_meta_key : Text → Text
key_meta_key hash = codes "key:" ++ hash

unfoldable pub key_id_index_key : Text → Text
key_id_index_key id = codes "keyid:" ++ id

unfoldable pub bucket_key : Text → Text
bucket_key user = codes "bucket:" ++ user ++ codes ":rpm"

unfoldable pub idem_key : Text → Text
idem_key key = codes "idem:" ++ key

-- The kinds of keys that the client writes, each with its name for an id.
pub data Kind : Type 0 where
  balance hold_of key_meta key_index bucket idempotency : Kind

unfoldable pub key_of : Kind → Text → Text
unfolding balance_key hold_key key_meta_key key_id_index_key bucket_key idem_key
key_of balance = balance_key
key_of hold_of = hold_key
key_of key_meta = key_meta_key
key_of key_index = key_id_index_key
key_of bucket = bucket_key
key_of idempotency = idem_key

append_cancel_left : (p a b : Text) → p ++ a ≡ p ++ b → a ≡ b
append_cancel_left [] a b h = h
append_cancel_left (x ∷ p) a b h = append_cancel_left p a b (cc h)

append_cancel_right : (a b q : Text) → a ++ q ≡ b ++ q → length q ≡ 4 → a ≡ b
append_cancel_right [] [] q h l = refl
append_cancel_right [] (y ∷ b) q h l = absurd (omega (arith, ap length h, length-append {0} b q))
append_cancel_right (x ∷ a) [] q h l = absurd (omega (arith, ap length h, length-append {0} a q))
append_cancel_right (x ∷ a) (y ∷ b) q h l = cc (append_cancel_right a b q (cc h) l)

-- Two letters that tell the kinds apart.
abbrev mark : Text → ℕ
mark (c₀ ∷ c₁ ∷ c₂ ∷ c₃ ∷ rest) = c₁ * 256 + c₃
mark _ = 0

-- A key of one kind is no key of another kind, and names its id.
pub key_of-injective : (k l : Kind) (a b : Text) → key_of k a ≡ key_of l b → (k ≡ l) × (a ≡ b)
unfolding key_of
key_of-injective balance balance a b h = (refl, append_cancel_left (codes "balance:") a b h)
key_of-injective hold_of hold_of a b h = (refl, append_cancel_left (codes "hold:") a b h)
key_of-injective key_meta key_meta a b h = (refl, append_cancel_left (codes "key:") a b h)
key_of-injective key_index key_index a b h = (refl, append_cancel_left (codes "keyid:") a b h)
key_of-injective bucket bucket a b h = (
  refl,
  append_cancel_right a b (codes ":rpm")
      (append_cancel_left (codes "bucket:") _ _ (
        sym (append_assoc (codes "bucket:") a (codes ":rpm"))
        ∙ h
        ∙ append_assoc (codes "bucket:") b (codes ":rpm")))
      refl,
)
key_of-injective idempotency idempotency a b h = (refl, append_cancel_left (codes "idem:") a b h)
key_of-injective _ _ a b h = absurd (omega (arith, ap mark h))
