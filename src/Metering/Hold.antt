-- ===== src/Metering/Hold.antt =====
-- internal/metering/hold.go: how a hold is split into what is captured and what is released.
use quarkgate.Prelude.{
  Bool-cases, InInt64, false, if◌then◌else◌, inl, inr, int_laws, leb_ℤ, leb→le, ltb_ℤ, pos, refl,
  true, wrap64, wrap64_id, ℤ, ◌+ℤ◌, ◌-ℤ◌, ◌≡◌, ◌≤ℤ◌, arith, ap, neg_part, pos_part, -ℤ_parts,
}

-- CaptureRelease
unfoldable pub capture_release : ℤ → ℤ → ℤ × ℤ
capture_release hold captured =
    let release = wrap64 (hold -ℤ captured) in
    if ltb_ℤ release (pos 0) then (hold, pos 0) else (captured, release)

-- For a hold and a charge that are int64s and not negative, the charge is cut down to the hold, and the parts
-- sum up to the hold.
pub capture_release_split :
    (hold used : ℤ)
    → InInt64 hold
    → InInt64 used
    → pos 0 ≤ℤ hold
    → pos 0 ≤ℤ used
    → let (captured, released) = capture_release hold used in
      (captured ≡ (if leb_ℤ used hold then used else hold))
      × (captured +ℤ released ≡ hold)
      × (pos 0 ≤ℤ captured)
      × (pos 0 ≤ℤ released)
unfolding capture_release
capture_release_split hold used fh fu nh nu =
    let exact : wrap64 (hold -ℤ used) ≡ hold -ℤ used =
      wrap64_id (hold -ℤ used) (omega int_laws, omega int_laws) in
    elim (Bool-cases (leb_ℤ used hold)) [
      | inl covered ↦
          let test : ltb_ℤ (hold -ℤ used) (pos 0) ≡ false = ground (arith, -ℤ_parts hold used) in
          rw (exact, test, covered) (refl, omega int_laws, nu, omega (int_laws, leb→le _ _ covered))
      | inr short ↦
          let test : ltb_ℤ (hold -ℤ used) (pos 0) ≡ true = ground (arith, -ℤ_parts hold used) in
          rw (exact, test, short) (refl, omega int_laws, nh, omega int_laws)
    ]

-- Two parts of an int64 that are not negative are int64s.
pub parts_fit :
    (a b whole : ℤ)
    → a +ℤ b ≡ whole
    → pos 0 ≤ℤ a
    → pos 0 ≤ℤ b
    → InInt64 whole
    → InInt64 a × InInt64 b
parts_fit a b whole e na nb fits =
    let up = ap pos_part e in
    let down = ap neg_part e in ((omega int_laws, omega int_laws), (omega int_laws, omega int_laws))
