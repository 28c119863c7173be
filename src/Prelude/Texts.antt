-- ===== src/Prelude/Texts.antt =====
-- Go strings as their bytes.
use Prim.Native.Char.{code}
use Prim.Native.Nat.{ℕ}
use Prim.Native.String.{String}
use mathlib.Core.Path.{◌≡◌, refl}
use mathlib.Core.Logic.{◌↔◌}
use mathlib.Core.Bool.{Bool, true, false, ◌&&◌}
use mathlib.Core.List.{List, [], ◌∷◌}
use native.Mathlib.Omega.{arith}
use quarkgate.Prelude.Tests.{nat_beq, Eq}

abbrev pub Text : Type 0
Text = List ℕ

-- The bytes of an ASCII literal.
abbrev pub codes : String → Text
codes String.[] = []
codes (String.◌∷◌ c s) = code c ∷ codes s

abbrev pub text_beq : Text → Text → Bool
text_beq [] [] = true
text_beq [] (y ∷ ys) = false
text_beq (x ∷ xs) [] = false
text_beq (x ∷ xs) (y ∷ ys) = nat_beq x y && text_beq xs ys

pub text_beq_refl : (xs : Text) → text_beq xs xs ≡ true
text_beq_refl [] = refl
text_beq_refl (x ∷ xs) = ground (arith, text_beq_refl xs)

text_eq_of_beq : (xs ys : Text) → text_beq xs ys ≡ true → xs ≡ ys
text_eq_of_beq [] [] h = refl
text_eq_of_beq [] (y ∷ ys) h = cc
text_eq_of_beq (x ∷ xs) [] h = cc
text_eq_of_beq (x ∷ xs) (y ∷ ys) h = ground (arith, text_eq_of_beq xs ys)

text_beq_of_eq : (xs ys : Text) → xs ≡ ys → text_beq xs ys ≡ true
text_beq_of_eq [] [] h = refl
text_beq_of_eq [] (y ∷ ys) h = cc
text_beq_of_eq (x ∷ xs) [] h = cc
text_beq_of_eq (x ∷ xs) (y ∷ ys) h = ground (arith, text_beq_of_eq xs ys)

pub text_beq_iff : (xs ys : Text) → (text_beq xs ys ≡ true) ↔ (xs ≡ ys)
text_beq_iff xs ys = (text_eq_of_beq xs ys, text_beq_of_eq xs ys)

instance abbrev pub text_eq : Eq Text
text_eq = record { same = text_beq; same_iff = text_beq_iff }

-- `strings.HasPrefix`
abbrev pub has_prefix : Text → Text → Bool
has_prefix s [] = true
has_prefix [] (y ∷ p) = false
has_prefix (x ∷ s) (y ∷ p) = nat_beq x y && has_prefix s p
