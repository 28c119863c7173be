-- ===== src/Metering/Normalize/Minimum.antt =====
-- The minimum charge of internal/metering/normalize.go.
use quarkgate.Exec.{ok, Result, err}
use quarkgate.Json.{Fields, Raw, Float64}
use quarkgate.Metering.Normalize.{
  FloatOps, NormalizeOptions, margin_of, normalize_with_options, raise_to_minimum, read_quantities,
  units, charge_at, charge_for, model_of, passed_cost, rates_for, total_charge, usd_charge,
}
use quarkgate.Models.{PricingModel}
use quarkgate.Prelude.{
  Bool, Bool-cases, arith, false, if◌then◌else◌, inl, inr, ltb_ℤ, none, pos, refl, some, true, ℤ,
  ◌<ℤ◌, ◌≡◌, ◌≤ℤ◌, ◌⊎◌, [], is_empty, not, Dict, Option, Text, subst, sym, ◌∙◌,
}

-- The third rule on the minimum has nothing to do: a total that the first two leave is not between
-- 0 and the minimum.
raise_to_minimum-partial :
    (minimum : ℤ) (any_units is_partial : Bool) (total : ℤ)
    → raise_to_minimum minimum any_units is_partial total
      ≡ raise_to_minimum minimum any_units false total
unfolding raise_to_minimum
raise_to_minimum-partial minimum any_units false total = refl
raise_to_minimum-partial minimum any_units true total = elim (Bool-cases (ltb_ℤ total minimum)) [
  | inl below ↦ elim (Bool-cases (ltb_ℤ (pos 0) total)) [
    | inl some_total ↦ ground arith
    | inr no_total ↦ ground arith
  ]
  | inr above ↦ ground arith
]

-- With a positive minimum, a total that is not negative and some units, the charge is the total or
-- the minimum, whichever is more.
raise_to_minimum_lem :
    (minimum : ℤ) (total : ℤ)
    → pos 0 <ℤ minimum
    → pos 0 ≤ℤ total
    → raise_to_minimum minimum true false total ≡ (if ltb_ℤ total minimum then minimum else total)
unfolding raise_to_minimum
raise_to_minimum_lem minimum total h k = elim (Bool-cases (ltb_ℤ total minimum)) [
  | inl below ↦ elim (Bool-cases (ltb_ℤ (pos 0) total)) [
    | inl some_total ↦ ground arith
    | inr no_total ↦ ground arith
  ]
  | inr above ↦ ground arith
]

-- What the first two rules leave is at least the minimum, or not positive.
raised-at_least :
    (minimum : ℤ) (any_units : Bool) (total : ℤ)
    → (minimum ≤ℤ raise_to_minimum minimum any_units false total)
      ⊎ (raise_to_minimum minimum any_units false total ≤ℤ pos 0)
unfolding raise_to_minimum
raised-at_least minimum any_units total = elim (Bool-cases (ltb_ℤ total minimum)) [
  | inl below ↦ elim (Bool-cases (ltb_ℤ (pos 0) total)) [
    | inl some_total ↦ ground arith
    | inr no_total ↦ ground arith
  ]
  | inr above ↦ ground arith
]

module _ (ops : FloatOps) where
  charge_for-partial :
      (pm : PricingModel) (raw : Fields) (credit_usd : ℤ) (opts : NormalizeOptions)
      (cost : Option Float64)
      → charge_for ops pm raw credit_usd opts cost
        ≡ charge_for ops pm raw credit_usd (record opts { is_partial = false }) cost
  unfolding charge_for margin_of charge_at
  charge_for-partial pm raw credit_usd opts (some cost) = refl
  charge_for-partial pm raw credit_usd opts none =
      charge_at-partial (read_quantities ops raw units []) (rates_for pm (model_of ops raw))
    where
      charge_at-partial :
          (qs : Dict Text Float64) (rates : Result (Dict Text ℤ))
          → charge_at ops pm qs opts.is_partial rates ≡ charge_at ops pm qs false rates
      charge_at-partial qs (err e) = refl
      charge_at-partial qs (ok rates) =
          rw
            (raise_to_minimum-partial pm.minimum_charge (not (is_empty qs)) opts.is_partial
              (total_charge ops rates qs (pos 0)))
            refl

  -- The option for partial responses has no effect on the charge or on its report.
  pub normalize-partial :
      (pricing : Raw PricingModel) (raw : Fields) (credit_usd : ℤ) (opts : NormalizeOptions)
      → normalize_with_options ops pricing raw credit_usd opts
        ≡ normalize_with_options ops pricing raw credit_usd (record opts { is_partial = false })
  unfolding normalize_with_options
  normalize-partial none raw credit_usd opts = refl
  normalize-partial (some pm) raw credit_usd opts =
      charge_for-partial pm raw credit_usd opts (passed_cost ops pm raw)

  -- A report of a charge that is at least the minimum, or not positive.
  abbrev IsCharged : PricingModel → Result (ℤ × Fields) → Type 0
  IsCharged pm (err e) = Unit
  IsCharged pm (ok (micro, report)) = (pm.minimum_charge ≤ℤ micro) ⊎ (micro ≤ℤ pos 0)

  charge_at-IsCharged :
      (pm : PricingModel) (qs : Dict Text Float64) (rates : Result (Dict Text ℤ))
      → IsCharged pm (charge_at ops pm qs false rates)
  unfolding charge_at
  charge_at-IsCharged pm qs (err e) = tt
  charge_at-IsCharged pm qs (ok rates) =
      raised-at_least pm.minimum_charge (not (is_empty qs)) (total_charge ops rates qs (pos 0))

  charge_for-IsCharged :
      (pm : PricingModel) (raw : Fields) (credit_usd : ℤ) (opts : NormalizeOptions)
      (cost : Option Float64)
      → IsCharged pm (charge_for ops pm raw credit_usd (record opts { is_partial = false }) cost)
  unfolding charge_for usd_charge margin_of
  charge_for-IsCharged pm raw credit_usd opts (some cost) =
      let micro = usd_charge ops (margin_of ops pm opts) credit_usd cost in
      elim (Bool-cases (ltb_ℤ micro pm.minimum_charge)) [
        | inl below ↦ rw below (inl (omega arith))
        | inr above ↦ rw above (inl (ground arith))
      ]
  charge_for-IsCharged pm raw credit_usd opts none = charge_at-IsCharged pm _ _

  -- A positive charge is at least the model's minimum, on both paths.
  pub normalize-at_least :
      (pm : PricingModel) (raw : Fields) (credit_usd : ℤ) (opts : NormalizeOptions) (micro : ℤ)
      (report : Fields)
      → normalize_with_options ops (some pm) raw credit_usd opts ≡ ok (micro, report)
      → pos 0 <ℤ micro
      → pm.minimum_charge ≤ℤ micro
  unfolding normalize_with_options
  normalize-at_least pm raw credit_usd opts micro report e positive =
      let charged : IsCharged pm (ok (micro, report)) =
        subst (IsCharged pm) (sym (charge_for-partial pm raw credit_usd opts _) ∙ e)
          (charge_for-IsCharged pm raw credit_usd opts (passed_cost ops pm raw)) in
      elim charged [ inl enough ↦ enough | inr none_left ↦ ground arith ]
