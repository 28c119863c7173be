-- ===== src/Store/Balance/Amounts.antt =====
-- The int64 arithmetic of ApplyHold and CaptureAndRelease, where the balance that is written is not
-- negative: it has not wrapped, and it moves by the amounts of the rows.
use quarkgate.Prelude.{
  Bool-cases, InInt64, arith, if◌then◌else◌, inl, inr, int_laws, ltb_ℤ, neg, pos, refl, wrap64,
  wrap64-InInt64, wrap64_id, wrap64_nonneg, ℤ, ◌+ℤ◌, ◌-ℤ◌, ◌≡◌, ◌≤ℤ◌, eq_of_parts, sym,
}
use quarkgate.Store.Credits.Entries.{after_entry}
use quarkgate.Store.Credits.Settle.{captured_balance}

-- In ApplyHold, for every int64 amount, a negative one too.
pub hold_amounts :
    (b amount : ℤ)
    → InInt64 b
    → pos 0 ≤ℤ b
    → InInt64 amount
    → amount ≤ℤ b
    → pos 0 ≤ℤ (wrap64 (b -ℤ amount))
    → (wrap64 (b -ℤ amount) ≡ b -ℤ amount) × (wrap64 (neg amount) ≡ neg amount)
hold_amounts b amount fb nb fa le h =
    let exact : wrap64 (b -ℤ amount) ≡ b -ℤ amount =
      wrap64_nonneg (b -ℤ amount) (omega int_laws) (omega int_laws) h in
    let fits : InInt64 (wrap64 (b -ℤ amount)) = wrap64-InInt64 (b -ℤ amount) in
    let fits' : InInt64 (b -ℤ amount) = rw exact at fits in
    (exact, wrap64_id (neg amount) (omega int_laws, omega int_laws))

-- The amount of a conditional row, 0 where none is written.
abbrev pub entry_amount : ℤ → ℤ → ℤ
entry_amount amount signed = if ltb_ℤ (pos 0) amount then wrap64 signed else pos 0

pub capture_amounts :
    (b captured : ℤ)
    → InInt64 b
    → pos 0 ≤ℤ b
    → InInt64 captured
    → (captured_balance captured b ≡ b +ℤ entry_amount captured (neg captured))
      × InInt64 (captured_balance captured b)
capture_amounts b captured fb nb fc = elim (Bool-cases (ltb_ℤ (pos 0) captured)) [
  | inl e ↦
      let positive : pos 1 ≤ℤ captured = ground arith in
      let id₁ : wrap64 (neg captured) ≡ neg captured =
        wrap64_id (neg captured) (omega int_laws, omega int_laws) in
      let id₂ : wrap64 (b +ℤ neg captured) ≡ b +ℤ neg captured =
        wrap64_id (b +ℤ neg captured) (omega int_laws, omega int_laws) in
      rw (e, id₁, id₂) (refl, omega int_laws)
  | inr e ↦ rw e (omega int_laws, fb)
]

pub release_amounts :
    (b released : ℤ)
    → InInt64 b
    → InInt64 released
    → pos 0 ≤ℤ (after_entry released released b)
    → (after_entry released released b ≡ b +ℤ entry_amount released released)
      × InInt64 (after_entry released released b)
release_amounts b released fb fr h = elim (Bool-cases (ltb_ℤ (pos 0) released)) [
  | inl e ↦
      let positive : pos 1 ≤ℤ released = ground arith in
      let nonneg : pos 0 ≤ℤ (wrap64 (b +ℤ released)) = rw e at h in
      let exact : wrap64 (b +ℤ released) ≡ b +ℤ released =
        wrap64_nonneg (b +ℤ released) (omega int_laws) (omega int_laws) nonneg in
      let fits : InInt64 (wrap64 (b +ℤ released)) = wrap64-InInt64 (b +ℤ released) in
      rw (e, wrap64_id released fr) (exact, fits)
  | inr e ↦ rw e (omega int_laws, fb)
]

-- A row's amount where the amount is not negative.
pub entry_amount_of_nonneg :
    (a signed : ℤ)
    → pos 0 ≤ℤ a
    → InInt64 signed
    → (a ≡ pos 0 → signed ≡ pos 0)
    → entry_amount a signed ≡ signed
entry_amount_of_nonneg a signed na fits z = elim (Bool-cases (ltb_ℤ (pos 0) a)) [
  | inl e ↦ rw e (wrap64_id signed fits)
  | inr e ↦ rw e (sym (z (eq_of_parts a (pos 0) (ground arith))))
]

pub neg-zero : neg (pos 0) ≡ pos 0
unfolding neg
neg-zero = refl
