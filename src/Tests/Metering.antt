-- ===== src/Tests/Metering.antt =====
-- The theorems on metering, with a toy arithmetic in place of float64: a number stands for itself.
use quarkgate.Exec.{ok}
use quarkgate.Json.{Fields, Value, get}
use quarkgate.LedgerWorker.Messages.{process_batch}
use quarkgate.LedgerWorker.Messages.Sound.{worker_batch-IsSound}
use quarkgate.Metering.Normalize.{
  FloatOps, NormalizeOptions, add_quantity, charge_at, charge_for, normalize_with_options,
  passed_cost, raise_to_minimum, rated_report, rates_for, read_quantities, total_charge,
}
use quarkgate.Metering.Normalize.Minimum.{normalize-at_least, normalize-partial}
use quarkgate.Metering.Worker.{Codec, Normalizer, WorkerConfig, process_event}
use quarkgate.Metering.Worker.Amounts.{IsInt64}
use quarkgate.Models.{PricingModel}
use quarkgate.Prelude.{
  [], codes, false, insert, int_laws, length, lookup, ltb, nat_beq, negsuc, none, pos, refl, some,
  true, wrap64, wrap64-InInt64, ◌*◌, ◌+ℤ◌, ◌+◌, ◌∷◌, ◌≡◌, ◌≤ℤ◌, nat_eq, text_eq, int_eq,
}
use quarkgate.Store.Balance.{IsSound}
use quarkgate.Tests.Credits.{tables-IsSound}
use quarkgate.Tests.Redis.{world}

abbrev pub toy : FloatOps
toy = record {
  of_int = λ a. elim a [ pos n ↦ n | negsuc n ↦ 0 ];
  to_int64 = λ x. wrap64 (pos x);
  round = λ x. x;
  add = λ x y. x + y;
  mul = λ x y. x * y;
  div = λ x y. x;
  is_positive = λ x. ltb 0 x;
  is_zero = λ x. nat_beq x 0;
  five_percent = 5;
}

abbrev pub codec : Codec
codec = record {
  parse_uuid = λ t. some (length t);
  show_uuid = λ n. n ∷ [];
  decode_int64 = λ t. none;
  format_int64 = λ a. [];
  decode_map = λ t. none;
  encode_request = λ p o. [];
}

pub codec-IsInt64 : IsInt64 toy codec
codec-IsInt64 = record { decoded = λ t n e. cc; converted = λ x. wrap64-InInt64 _ }

abbrev pub pricing : PricingModel
pricing = record {
  passthrough_usd = false;
  platform_margin = 0;
  base_rates = some ((codes "TOK_INPUT", pos 3) ∷ []);
  model_overrides = none;
  minimum_charge = pos 100;
  minimum_fits = (omega int_laws, omega int_laws);
}

abbrev options : NormalizeOptions
options = record { margin = 0; is_partial = true }

-- Two input tokens, below the minimum charge.
abbrev pub two_tokens : Fields
two_tokens = Fields.field (codes "input_tokens") (Value.num 2) Fields.empty

normalize-partial_example :
    normalize_with_options toy (some pricing) two_tokens (pos 10000) options
    ≡ normalize_with_options toy
        (some pricing)
        two_tokens
        (pos 10000)
        (record options { is_partial = false })
normalize-partial_example = normalize-partial toy (some pricing) two_tokens (pos 10000) options

abbrev report : Fields
report = rated_report toy (pos 100) ((codes "TOK_INPUT", 2) ∷ [])

normalize_run :
    normalize_with_options toy (some pricing) two_tokens (pos 10000) options ≡ ok (pos 100, report)
unfolding normalize_with_options charge_for charge_at passed_cost rates_for read_quantities
    add_quantity total_charge raise_to_minimum get insert lookup wrap64 ◌+ℤ◌
normalize_run = refl

normalize-at_least_example : pos 100 ≤ℤ pos 100
normalize-at_least_example =
    normalize-at_least toy pricing two_tokens (pos 10000) options (pos 100) report normalize_run
      (omega int_laws)

abbrev pub no_driver : Normalizer
no_driver = record { has_capability = λ p. false; invoke_normalize = λ p raw e. none }

abbrev pub cfg : WorkerConfig
cfg = record { margin = 0; credit_usd_micro = pos 10000 }

worker_batch-IsSound_example :
    IsSound (process_batch (process_event toy codec no_driver cfg) 3 world).1.db.tables
worker_batch-IsSound_example =
    worker_batch-IsSound toy codec no_driver cfg 3 world codec-IsInt64 tables-IsSound
