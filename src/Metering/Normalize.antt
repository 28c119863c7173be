-- ===== src/Metering/Normalize.antt =====
-- internal/metering/normalize.go: the charge for the usage that a provider reports. The arithmetic
-- of float64 is a parameter.
pub mod Minimum
use quarkgate.Exec.{Result, err, failure, ok}
use quarkgate.Json.{Fields, Float64, Raw, Value, as_string, get}
use quarkgate.Models.{PricingModel}
use quarkgate.Prelude.{
  Bool, Dict, List, Option, Text, [], beq_ℤ, codes, if◌then◌else◌, insert, insert_all, is_empty,
  lookup, ltb_ℤ, none, not, pos, some, wrap64, ℤ, ◌&&◌, ◌*ℤ◌, ◌+ℤ◌, ◌==◌, ◌∷◌, nat_eq, text_eq,
  int_eq,
}

pub record FloatOps : Type 0 where
  pub of_int : ℤ → Float64
  pub to_int64 : Float64 → ℤ
  pub round : Float64 → Float64
  pub add : Float64 → Float64 → Float64
  pub mul : Float64 → Float64 → Float64
  pub div : Float64 → Float64 → Float64
  pub is_positive : Float64 → Bool
  pub is_zero : Float64 → Bool
  pub five_percent : Float64

-- NormalizeOptions
pub record NormalizeOptions : Type 0 where
  pub margin : Float64
  pub is_partial : Bool

-- The names of the usage map, each with the unit of its rate.
abbrev pub units : List (Text × Text)
units =
    (codes "input_tokens", codes "TOK_INPUT")
    ∷ (codes "output_tokens", codes "TOK_OUTPUT")
    ∷ (codes "compute_seconds", codes "COMPUTE_S")
    ∷ (codes "db_reads", codes "DB_READ")
    ∷ (codes "db_writes", codes "DB_WRITE")
    ∷ (codes "vec_queries", codes "VEC_QUERY")
    ∷ (codes "api_calls", codes "API_CALL")
    ∷ []

-- The two rules of the charge for a total: the tests on `minimum_charge_micro`, in their order.
-- `any_units` is `len(quantities) > 0`.
unfoldable pub raise_to_minimum : ℤ → Bool → Bool → ℤ → ℤ
raise_to_minimum minimum any_units is_partial total =
    let total₁ = if ltb_ℤ total minimum && ltb_ℤ (pos 0) total then minimum else total in
    let total₂ =
      if beq_ℤ total₁ (pos 0) && ltb_ℤ (pos 0) minimum && any_units then minimum else total₁ in
    if is_partial && ltb_ℤ (pos 0) total₂ && ltb_ℤ (pos 0) minimum && ltb_ℤ total₂ minimum
    then minimum
    else total₂

-- The rates of a model: its overrides are written over the base rates. Writing to a nil map panics,
-- which ends the program; here it is an error.
unfoldable pub rates_for : PricingModel → Text → Result (Dict Text ℤ)
rates_for pm model =
    elim (if model == []
      then none
      else elim pm.model_overrides [ none ↦ none | some all ↦ lookup model all ]) [
        | none ↦ ok (elim pm.base_rates [ none ↦ [] | some rates ↦ rates ])
        | some override ↦ elim pm.base_rates [
          | some rates ↦ ok (insert_all rates override)
          | none ↦
              if is_empty override
              then ok []
              else err (failure (codes "assignment to entry in nil map"))
        ]
      ]

module _ (ops : FloatOps) where
  -- One of the pairs of tests `raw[name].(float64)` and `raw[name].(int)`.
  unfoldable pub add_quantity : Fields → Text × Text → Dict Text Float64 → Dict Text Float64
  add_quantity raw (name, unit) quantities = elim (get name raw) [
    | some (Value.num q) ↦ insert unit q quantities
    | some (Value.int n) ↦ insert unit (ops.of_int n) quantities
    | _ ↦ quantities
  ]

  unfoldable pub read_quantities :
      Fields → List (Text × Text) → Dict Text Float64 → Dict Text Float64
  read_quantities raw [] quantities = quantities
  read_quantities raw (u ∷ us) quantities = read_quantities raw us (add_quantity raw u quantities)

  -- `int64(math.Round(qty * float64(rate)))`
  abbrev pub charge : Float64 → ℤ → ℤ
  charge quantity rate = ops.to_int64 (ops.round (ops.mul quantity (ops.of_int rate)))

  -- The loop over the quantities.
  unfoldable pub total_charge : Dict Text ℤ → Dict Text Float64 → ℤ → ℤ
  total_charge rates [] total = total
  total_charge rates ((unit, quantity) ∷ qs) total =
      total_charge rates qs (elim (lookup unit rates) [
        | none ↦ total
        | some rate ↦ wrap64 (total +ℤ charge quantity rate)
      ])

  -- The margin: the option's, else the model's, else 0.05.
  unfoldable pub margin_of : PricingModel → NormalizeOptions → Float64
  margin_of pm opts =
      let margin = if ops.is_positive opts.margin then opts.margin else pm.platform_margin in
      if ops.is_zero margin then ops.five_percent else margin

  -- The passthrough's charge for a cost in USD.
  unfoldable pub usd_charge : Float64 → ℤ → Float64 → ℤ
  usd_charge margin credit_usd cost =
      let million = ops.of_int (pos 1000000) in
      let usd_micro = ops.to_int64 (ops.round (ops.mul cost million)) in
      ops.to_int64 (
        ops.round (
          ops.div
            (ops.mul (ops.mul (ops.of_int usd_micro) (ops.add (ops.of_int (pos 1)) margin))
              (ops.of_int credit_usd))
            million))

  -- `raw["cost_usd"].(float64)`, if the model passes it through and it is positive
  unfoldable pub passed_cost : PricingModel → Fields → Option Float64
  passed_cost pm raw =
      if pm.passthrough_usd
      then elim (get (codes "cost_usd") raw) [
        | some (Value.num cost) ↦ if ops.is_positive cost then some cost else none
        | _ ↦ none
      ]
      else none

  -- The map of the quantities, as a JSON object.
  unfoldable pub quantity_fields : Dict Text Float64 → Fields
  quantity_fields [] = Fields.empty
  quantity_fields ((unit, q) ∷ qs) = Fields.field unit (Value.num q) (quantity_fields qs)

  abbrev pub passed_report : ℤ → Float64 → Fields
  passed_report micro cost = Fields.field (codes "micro_credits") (Value.int64 micro) (
      Fields.field (codes "cost_usd") (Value.num cost)
        (Fields.field (codes "method") (Value.str (codes "passthrough_usd")) Fields.empty))

  abbrev pub rated_report : ℤ → Dict Text Float64 → Fields
  rated_report micro quantities = Fields.field (codes "micro_credits") (Value.int64 micro) (
      Fields.field (codes "quantities") (Value.obj (quantity_fields quantities))
        (Fields.field (codes "method") (Value.str (codes "rate_table")) Fields.empty))

  -- The charge at the rates of the model, if they could be put together.
  unfoldable pub charge_at :
      PricingModel → Dict Text Float64 → Bool → Result (Dict Text ℤ) → Result (ℤ × Fields)
  charge_at pm quantities is_partial (err e) = err e
  charge_at pm quantities is_partial (ok rates) =
      let total =
        raise_to_minimum pm.minimum_charge (not (is_empty quantities)) is_partial
          (total_charge rates quantities (pos 0)) in
      ok (total, rated_report total quantities)

  abbrev pub model_of : Fields → Text
  model_of raw = elim (as_string (get (codes "model") raw)) [ none ↦ [] | some text ↦ text ]

  -- The passthrough's charge where there is a cost to pass through, else the path of the rate table.
  unfoldable pub charge_for :
      PricingModel → Fields → ℤ → NormalizeOptions → Option Float64 → Result (ℤ × Fields)
  charge_for pm raw credit_usd opts (some cost) =
      let micro = usd_charge (margin_of pm opts) credit_usd cost in
      let charged = if ltb_ℤ micro pm.minimum_charge then pm.minimum_charge else micro in
      ok (charged, passed_report charged cost)
  charge_for pm raw credit_usd opts none =
      charge_at pm (read_quantities raw units []) opts.is_partial (rates_for pm (model_of raw))

  -- NormalizeWithOptions; `none` is a pricing model that is no JSON of its type.
  unfoldable pub normalize_with_options :
      Raw PricingModel → Fields → ℤ → NormalizeOptions → Result (ℤ × Fields)
  normalize_with_options none raw credit_usd opts = err (failure (codes "pricing model"))
  normalize_with_options (some pm) raw credit_usd opts =
      charge_for pm raw credit_usd opts (passed_cost pm raw)

-- EstimateMax
unfoldable pub estimate_max : Raw PricingModel → ℤ → ℤ → ℤ
estimate_max pricing hints default_estimate =
    let minimum : ℤ = elim pricing [ none ↦ pos 0 | some pm ↦ pm.minimum_charge ] in
    if ltb_ℤ (pos 0) hints
    then wrap64 (hints *ℤ pos 1000000)
    else if ltb_ℤ (pos 0) minimum && ltb_ℤ default_estimate minimum
    then wrap64 (minimum *ℤ pos 100)
    else if beq_ℤ default_estimate (pos 0)
    then pos 10000000
    else default_estimate
