-- ===== src/Exec.antt =====
-- Go functions with an `error` result over mutable state. What a function wrote before it failed
-- stays written, so the state comes back beside the error too.
use quarkgate.Prelude.{Bool, Option, Text, false, none, refl, some, true, ℤ, ◌≡◌}

pub data Error : Type 0 where
  no_rows unique_violation check_violation foreign_key_violation out_of_range unavailable : Error
  insufficient : ℤ → Error
  failure : Text → Error

pub data Result {ℓ} (A : Type ℓ) : Type ℓ where
  ok : A → Result A
  err : Error → Result A

abbrev pub Exec {ℓ} : Type ℓ → Type ℓ → Type ℓ
Exec S A = S → Result A × S

module _ {ℓ} {S A : Type ℓ} where
  abbrev pub pure : A → Exec S A
  pure a s = (ok a, s)

  abbrev pub fail : Error → Exec S A
  fail e s = (err e, s)

  abbrev pub lift : Result A → Exec S A
  lift r s = (r, s)

  abbrev pub gets : (S → A) → Exec S A
  gets f s = (ok (f s), s)

  abbrev pub or_fail : Option A → Error → Exec S A
  or_fail none e = fail e
  or_fail (some a) e = pure a

abbrev pub modify : {S : Type 0} → (S → S) → Exec S (Unit {0})
modify f s = (ok tt, f s)

-- `if err != nil { return … }`
abbrev pub check : {S : Type 0} → Bool → Error → Exec S (Unit {0})
check true e = pure tt
check false e = fail e

module _ {ℓ} {S A B : Type ℓ} where
  abbrev pub continue : Result A → (A → Exec S B) → Exec S B
  continue (ok a) f s = f a s
  continue (err e) f s = (err e, s)

  infixl 5 ◌>>=◌ ◌>>◌
  abbrev pub ◌>>=◌ : Exec S A → (A → Exec S B) → Exec S B
  ◌>>=◌ m f s = continue (m s).0 f (m s).1

  abbrev pub ◌>>◌ : Exec S A → Exec S B → Exec S B
  m >> n = m >>= λ _. n

  -- A successful block: its first step has succeeded, and the rest from there.
  pub bind-eq-ok :
      (m : Exec S A) (f : A → Exec S B) (s : S) {b : B} {s' : S}
      → (m >>= f) s ≡ (ok b, s')
      → (a : A) × (s₁ : S) × (m s ≡ (ok a, s₁)) × (f a s₁ ≡ (ok b, s'))
  bind-eq-ok m f s h = continue_cases f (m s) h
    where
      continue_cases :
          (f : A → Exec S B) (r : Result A × S) {b : B} {s' : S}
          → continue r.0 f r.1 ≡ (ok b, s')
          → (a : A) × (s₁ : S) × (r ≡ (ok a, s₁)) × (f a s₁ ≡ (ok b, s'))
      continue_cases f (ok a, s₁) h = (a, s₁, refl, h)
      continue_cases f (err e, s₁) h = cc

-- An error that the caller drops.
abbrev pub ignore : {S A : Type 0} → Exec S A → Exec S (Unit {0})
ignore m s = (ok tt, (m s).1)

-- The result as a value, for a caller that looks at the error.
abbrev pub attempt : {S A : Type 0} → Exec S A → Exec S (Result A)
attempt m s = (ok (m s).0, (m s).1)
