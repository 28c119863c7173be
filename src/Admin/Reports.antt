-- ===== src/Admin/Reports.antt =====
-- balance, usage-summary, burn-rate and usage-log of cmd/admin/main.go.
use quarkgate.Admin.Base.{AdminCodec, line, uuid_arg}
use quarkgate.Exec.{◌>>=◌, Exec, Result, attempt, ok, pure}
use quarkgate.Models.{LedgerTransaction}
use quarkgate.Prelude.{
  Bool, List, Option, Text, [], codes, false, neg, negsuc, pos, some, suc, true, ℤ, ◌++◌, ◌/◌, ◌∷◌,
}
use quarkgate.Redis.Values.{get_balance}
use quarkgate.Store.Credits.{list_ledger_by_reference, reconcile_user_balance}
use quarkgate.Store.Usage.{
  UsageSummaryRow, burn_rate_24h, get_usage_log_by_request_id, usage_summary_24h,
}
use quarkgate.World.{World, on_db, on_redis}

module _ (codec : AdminCodec) where
  abbrev cached_or_0 : Result (Option ℤ) → ℤ × Bool
  cached_or_0 (ok (some n)) = (n, true)
  cached_or_0 _ = (pos 0, false)

  -- balance
  unfoldable pub balance_command : Text → Exec World Text
  balance_command user = do
    id ← uuid_arg codec user
    (cached, ledger) ← on_db (reconcile_user_balance id)
    answer ←
        attempt (on_redis (get_balance codec.format_int64 codec.parse_int64 (codec.show_uuid id)))
    let (redis_balance, known) = cached_or_0 answer
    pure (
        line (
          codes "cached_micro="
          ++ codec.format_int64 cached
          ++ codes " ledger_micro="
          ++ codec.format_int64 ledger
          ++ codes " redis_micro="
          ++ codec.format_int64 redis_balance
          ++ codes " redis_cached="
          ++ codec.format_bool known))

  unfoldable pub show_summary : List UsageSummaryRow → Text
  show_summary [] = []
  show_summary (r ∷ rows) =
      line (
        codes "provider="
        ++ r.provider_slug
        ++ codes " captured_micro="
        ++ codec.format_int64 r.total
        ++ codes " count="
        ++ codec.format_int64 (pos r.count))
      ++ show_summary rows

  -- usage-summary
  unfoldable pub usage_summary_command : Text → Exec World Text
  usage_summary_command user = do
    id ← uuid_arg codec user
    rows ← on_db (usage_summary_24h id)
    pure (show_summary rows)

  -- `n / 24` of int64s, which rounds to 0
  abbrev quotient_24 : ℤ → ℤ
  quotient_24 (pos n) = pos (n / 24)
  quotient_24 (negsuc n) = neg (pos (suc n / 24))

  -- burn-rate
  unfoldable pub burn_rate_command : Text → Exec World Text
  burn_rate_command user = do
    id ← uuid_arg codec user
    total ← on_db (burn_rate_24h id)
    pure (
        line (
          codes "burn_24h_micro="
          ++ codec.format_int64 total
          ++ codes " burn_per_hour_micro="
          ++ codec.format_int64 (quotient_24 total)))

  unfoldable pub show_ledger : List LedgerTransaction → Text
  show_ledger [] = []
  show_ledger (t ∷ ts) =
      line (
        codes "ledger txn="
        ++ codec.show_uuid t.id
        ++ codes " type="
        ++ codec.type_text t.type
        ++ codes " amount_micro="
        ++ codec.format_int64 t.amount)
      ++ show_ledger ts

  -- usage-log
  unfoldable pub usage_log_command : Text → Exec World Text
  usage_log_command request_arg = do
    id ← uuid_arg codec request_arg
    log ← on_db (get_usage_log_by_request_id id)
    txns ← on_db (list_ledger_by_reference id)
    pure (line (codec.encode_usage_log log) ++ show_ledger txns)
