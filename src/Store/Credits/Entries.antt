-- ===== src/Store/Credits/Entries.antt =====
-- The conditional inserts of CaptureAndRelease in internal/store/store.go.
use quarkgate.Exec.{Exec, ◌>>=◌}
use quarkgate.Models.{TxnType, Uuid}
use quarkgate.Prelude.{
  Bool-cases, Option, Text, codes, false, if◌then◌else◌, inl, inr, ltb_ℤ, none, pos, refl, some,
  subst, true, wrap64, ℤ, ◌+ℤ◌, ◌≡◌,
}
use quarkgate.Store.{Db, Tables}
use quarkgate.Store.Credits.{insert_if_positive}
use quarkgate.Store.Credits.Steps.{From-insert_transaction, new_row, with_row}
use quarkgate.Store.From.{From, From-bind, From-pure}
use quarkgate.Store.Rows.{has_idempotency_key}

-- What one conditional insert of CaptureAndRelease comes to.
abbrev pub after_entry : ℤ → ℤ → ℤ → ℤ
after_entry amount signed b = if ltb_ℤ (pos 0) amount then wrap64 (b +ℤ signed) else b

abbrev pub with_entry : Tables → Uuid → TxnType → ℤ → ℤ → ℤ → Uuid → Text → Tables
with_entry t user type amount signed b request key =
    if ltb_ℤ (pos 0) amount
    then with_row t (
        new_row t user type (wrap64 signed) (after_entry amount signed b) (codes "usage_log")
          (some request) key)
    else t

abbrev pub entry_id : Tables → ℤ → Option Uuid
entry_id t amount = if ltb_ℤ (pos 0) amount then some t.next_uuid else none

-- An amount that is written needs a new key.
abbrev pub IsFresh : Tables → ℤ → Text → Type 0
IsFresh t amount key = ltb_ℤ (pos 0) amount ≡ true → has_idempotency_key key t.ledger ≡ false

module _ (t : Tables) (user : Uuid) (type : TxnType) (amount signed b : ℤ) (request : Uuid)
    (key : Text) where
  abbrev Entered : ℤ × Option Uuid → Tables → Type 0
  Entered p t' =
      IsFresh t amount key
      × ◌≡◌ {A = (ℤ × Option Uuid) × Tables}
          (
            (after_entry amount signed b, entry_id t amount),
            with_entry t user type amount signed b request key,
          )
          (p, t')

  insert_if_positive-Entered :
      From t Entered (insert_if_positive user type amount signed b request key)
  unfolding insert_if_positive
  insert_if_positive-Entered = elim (Bool-cases (ltb_ℤ (pos 0) amount)) [
    | inl e ↦
        rw e
          (From-insert_transaction _ _ _ _ _ _ _ _ λ fresh. From-pure _ ((λ _. fresh), rw e refl))
    | inr e ↦ rw e (From-pure _ ((λ h. cc), rw e refl))
  ]

  pub From-insert_if_positive :
      {B : Type 0} {Q : B → Tables → Type 0} (f : ℤ × Option Uuid → Exec Db B)
      → (IsFresh t amount key
          → From
              (with_entry t user type amount signed b request key)
              Q
              (f (after_entry amount signed b, entry_id t amount)))
      → From t Q (insert_if_positive user type amount signed b request key >>= f)
  From-insert_if_positive {Q} f k =
      From-bind Entered _ f insert_if_positive-Entered
        λ p t' h. subst (λ (r : (ℤ × Option Uuid) × Tables). From r.1 Q (f r.0)) h.1 (k h.0)

-- A row of the ledger leaves the users alone.
pub users-with_entry :
    (t : Tables) (user : Uuid) (type : TxnType) (amount signed b : ℤ) (request : Uuid) (key : Text)
    → (with_entry t user type amount signed b request key).users ≡ t.users
users-with_entry t user type amount signed b request key =
    elim (Bool-cases (ltb_ℤ (pos 0) amount)) [ inl e ↦ rw e | inr e ↦ rw e ]
