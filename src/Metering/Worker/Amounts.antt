-- ===== src/Metering/Worker/Amounts.antt =====
-- The amounts that ProcessEvent of internal/metering/worker.go works with are int64s.
use quarkgate.Exec.{Result, err, ok}
use quarkgate.Json.{Fields, Float64, Raw}
use quarkgate.Metering.Hold.{capture_release}
use quarkgate.Metering.Normalize.{
  FloatOps, NormalizeOptions, charge, charge_at, charge_for, normalize_with_options,
  raise_to_minimum, total_charge, usd_charge,
}
use quarkgate.Metering.Worker.{Codec, Normalizer, WorkerConfig, int_or_0, text_of, to_int64_of}
use quarkgate.Models.{PricingModel}
use quarkgate.Prelude.{
  Bool, Bool-cases, Dict, InInt64, Option, Text, [], arith, if◌then◌else◌, inl, inr, int_laws,
  is_empty, lookup, ltb_ℤ, none, not, pos, refl, some, wrap64, wrap64-InInt64, ℤ, ◌+ℤ◌, ◌-ℤ◌, ◌∷◌,
  ◌≡◌, nat_eq, text_eq, int_eq,
}

-- An int64 splits into two.
pub capture_release-InInt64 :
    (hold used : ℤ)
    → InInt64 hold
    → InInt64 used
    → InInt64 (capture_release hold used).0 × InInt64 (capture_release hold used).1
unfolding capture_release
capture_release-InInt64 hold used fh fu =
    elim (Bool-cases (ltb_ℤ (wrap64 (hold -ℤ used)) (pos 0))) [
      | inl short ↦ rw short (fh, (omega int_laws, omega int_laws))
      | inr covered ↦ rw covered (fu, wrap64-InInt64 _)
    ]

-- What a JSON number decodes to fits, and so does what float64 arithmetic converts to.
pub record IsInt64 (ops : FloatOps) (codec : Codec) : Type 0 where
  pub decoded : (text : Text) (n : ℤ) → codec.decode_int64 text ≡ some n → InInt64 n
  pub converted : (x : Float64) → InInt64 (ops.to_int64 x)

raise_to_minimum-InInt64 :
    (minimum : ℤ) (any_units is_partial : Bool) (total : ℤ)
    → InInt64 minimum
    → InInt64 total
    → InInt64 (raise_to_minimum minimum any_units is_partial total)
unfolding raise_to_minimum
raise_to_minimum-InInt64 minimum any_units is_partial total fm ft = ground arith

module _ (ops : FloatOps) (codec : Codec) (fits : IsInt64 ops codec) where
  total_charge-InInt64 :
      (rates : Dict Text ℤ) (qs : Dict Text Float64) (total : ℤ)
      → InInt64 total
      → InInt64 (total_charge ops rates qs total)
  unfolding total_charge
  total_charge-InInt64 rates [] total h = h
  total_charge-InInt64 rates ((unit, q) ∷ qs) total h =
      total_charge-InInt64 rates qs _ (added (lookup unit rates))
    where
      added :
          (o : Option ℤ)
          → InInt64 (elim o [ none ↦ total | some rate ↦ wrap64 (total +ℤ charge ops q rate) ])
      added none = h
      added (some rate) = wrap64-InInt64 _

  -- The charge of a result fits.
  abbrev pub HasInt64 : Result (ℤ × Fields) → Type 0
  HasInt64 (err e) = Unit
  HasInt64 (ok (micro, report)) = InInt64 micro

  charge_at-HasInt64 :
      (pm : PricingModel) (qs : Dict Text Float64) (is_partial : Bool)
      (rates : Result (Dict Text ℤ))
      → HasInt64 (charge_at ops pm qs is_partial rates)
  unfolding charge_at
  charge_at-HasInt64 pm qs is_partial (err e) = tt
  charge_at-HasInt64 pm qs is_partial (ok rates) =
      raise_to_minimum-InInt64 pm.minimum_charge (not (is_empty qs)) is_partial _ pm.minimum_fits
        (total_charge-InInt64 rates qs (pos 0) (omega int_laws, omega int_laws))

  charge_for-HasInt64 :
      (pm : PricingModel) (raw : Fields) (credit_usd : ℤ) (opts : NormalizeOptions)
      (cost : Option Float64)
      → HasInt64 (charge_for ops pm raw credit_usd opts cost)
  unfolding charge_for usd_charge
  charge_for-HasInt64 pm raw credit_usd opts none = charge_at-HasInt64 pm _ opts.is_partial _
  charge_for-HasInt64 pm raw credit_usd opts (some cost) = raised _ (fits.converted _)
    where
      raised :
          (micro : ℤ)
          → InInt64 micro
          → InInt64 (if ltb_ℤ micro pm.minimum_charge then pm.minimum_charge else micro)
      raised micro h = elim (Bool-cases (ltb_ℤ micro pm.minimum_charge)) [
        | inl below ↦ rw below pm.minimum_fits
        | inr above ↦ rw above h
      ]

  pub normalize-HasInt64 :
      (pricing : Raw PricingModel) (raw : Fields) (credit_usd : ℤ) (opts : NormalizeOptions)
      → HasInt64 (normalize_with_options ops pricing raw credit_usd opts)
  unfolding normalize_with_options
  normalize-HasInt64 none raw credit_usd opts = tt
  normalize-HasInt64 (some pm) raw credit_usd opts = charge_for-HasInt64 pm raw credit_usd opts _

  pub to_int64-InInt64 :
      (driver : Normalizer) (cfg : WorkerConfig) (name : Text) (fields : Dict Text Text)
      → InInt64 (to_int64_of ops codec driver cfg name fields)
  unfolding to_int64_of
  to_int64-InInt64 driver cfg name fields =
      or_0 (codec.decode_int64 (text_of name fields)) (fits.decoded (text_of name fields))
    where
      or_0 : (o : Option ℤ) → ((n : ℤ) → o ≡ some n → InInt64 n) → InInt64 (int_or_0 o)
      or_0 none h = (omega int_laws, omega int_laws)
      or_0 (some n) h = h n refl
