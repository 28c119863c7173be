-- ===== src/Admin.antt =====
-- cmd/admin/main.go: the commands, with what they print. An error that ends the command is a failure.
pub mod Base
pub mod ApiKeys
pub mod Reports
use ApiKeys.{create_key_command, revoke_key_command}
use Base.{AdminCodec, line, uuid_arg}
use Reports.{balance_command, burn_rate_command, usage_log_command, usage_summary_command}
use quarkgate.Exec.{◌>>=◌, ◌>>◌, Exec, fail, failure, gets, lift, or_fail, pure}
use quarkgate.LedgerWorker.Reconcile.{reconcile_user}
use quarkgate.Prelude.{
  List, Option, Text, [], codes, if◌then◌else◌, lookup, none, pos, some, wrap64, ℤ, ◌*ℤ◌, ◌++◌,
  ◌==◌, ◌∷◌, beq_ℤ, nat_eq, text_eq, int_eq,
}
use quarkgate.Redis.{Message, Redis, command}
use quarkgate.Redis.Stream.{read_dlq, replay_dlq_entry}
use quarkgate.Registry.Invoke.{invoke_health_check}
use quarkgate.Store.Credits.{deposit_credits}
use quarkgate.Store.Usage.{get_provider_by_slug}
use quarkgate.Store.Users.{create_user}
use quarkgate.Vault.{get_credential, put_credential}
use quarkgate.Vault.Cipher.{decrypt_string, encrypt_string}
use quarkgate.World.{World, on_db, on_redis}

module _ (codec : AdminCodec) where
  -- parseCredits
  unfoldable pub parse_credits : Text → Option ℤ
  parse_credits s = elim (codec.scan_int64 s) [
    | none ↦ none
    | some credits ↦ some (wrap64 (credits *ℤ pos 1000000))
  ]

  -- create-user
  unfoldable pub create_user_command : Text → Exec World Text
  create_user_command email = do
    u ← on_db (create_user email)
    pure (line (codes "user_id=" ++ codec.show_uuid u.id ++ codes " email=" ++ u.email))

  -- deposit-credits
  unfoldable pub deposit_credits_command : Text → Text → Exec World Text
  deposit_credits_command user amount = do
    id ← uuid_arg codec user
    credits ← or_fail (parse_credits amount) (failure (codes "credits"))
    key ← gets (λ w. codes "deposit-" ++ codec.nanos w)
    balance ← on_db (deposit_credits id credits key)
    pure (line (codes "balance_micro=" ++ codec.format_int64 balance))

  -- store-credential
  unfoldable pub store_credential_command : Text → Text → Text → Exec World Text
  store_credential_command slug label secret = do
    p ← on_db (get_provider_by_slug slug)
    on_db (
        put_credential (encrypt_string codec.cipher codec.nonce) (decrypt_string codec.cipher) p.id
          label secret)
    pure (line (codes "credential stored"))

  -- driver-health
  unfoldable pub driver_health_command : Text → Exec World Text
  driver_health_command slug = do
    registry ← lift codec.registry
    p ← on_db (get_provider_by_slug slug)
    let label : Text = elim p.auth_injection [
      | none ↦ []
      | some inject ↦ elim (lookup (codes "vault_label") inject) [ none ↦ [] | some l ↦ l ]
    ]
    credential ← on_db (
        get_credential (encrypt_string codec.cipher codec.nonce) (decrypt_string codec.cipher) slug
          (if label == [] then codes "master_" ++ slug else label))
    h ← lift (invoke_health_check codec.host registry slug p.base_url credential)
    pure (line (codec.encode_health h))

  -- replay-dlq: the first failure ends it.
  unfoldable pub replay_each : List Message → Exec Redis Text
  replay_each [] = pure []
  replay_each (m ∷ ms) = do
    replay_dlq_entry m.values
    printed ← replay_each ms
    pure (line (codes "replayed " ++ codec.message_id m.id) ++ printed)

  unfoldable pub replay_dlq_command : Exec World Text
  replay_dlq_command = on_redis (do ms ← read_dlq 100; replay_each ms)

  abbrev missing_argument : Exec World Text
  missing_argument = fail (failure (codes "usage"))

  abbrev with_1 : List Text → (Text → Exec World Text) → Exec World Text
  with_1 (a ∷ _) command = command a
  with_1 _ command = missing_argument

  abbrev with_2 : List Text → (Text → Text → Exec World Text) → Exec World Text
  with_2 (a ∷ b ∷ _) command = command a b
  with_2 _ command = missing_argument

  abbrev with_3 : List Text → (Text → Text → Text → Exec World Text) → Exec World Text
  with_3 (a ∷ b ∷ c ∷ _) command = command a b c
  with_3 _ command = missing_argument

  -- reconcile-user
  unfoldable pub reconcile_user_command : Text → Exec World Text
  reconcile_user_command user = do
    id ← uuid_arg codec user
    (cached, ledger) ← reconcile_user codec.show_uuid codec.format_int64 id
    pure (
        line (
          if beq_ℤ cached ledger
          then codes "no drift"
          else codes "fixed cached="
            ++ codec.format_int64 cached
            ++ codes " -> ledger="
            ++ codec.format_int64 ledger))

  -- The switch of main, over `os.Args[1:]`, once the database, the vault and Redis are there.
  unfoldable pub run_command : List Text → Exec World Text
  run_command [] = missing_argument
  run_command (command ∷ args) =
      if command == codes "migrate"
      then pure (line (codes "migrations applied"))
      else if command == codes "create-user"
      then with_1 args create_user_command
      else if command == codes "deposit-credits"
      then with_2 args deposit_credits_command
      else if command == codes "create-key"
      then with_2 args (create_key_command codec)
      else if command == codes "revoke-key"
      then with_1 args (revoke_key_command codec)
      else if command == codes "store-credential"
      then with_3 args store_credential_command
      else if command == codes "seed-provider"
      then pure (line (codes "providers seeded via migrations"))
      else if command == codes "driver-health"
      then with_1 args driver_health_command
      else if command == codes "balance"
      then with_1 args (balance_command codec)
      else if command == codes "usage-summary"
      then with_1 args (usage_summary_command codec)
      else if command == codes "burn-rate"
      then with_1 args (burn_rate_command codec)
      else if command == codes "usage-log"
      then with_1 args (usage_log_command codec)
      else if command == codes "reconcile-user"
      then with_1 args reconcile_user_command
      else if command == codes "replay-dlq"
      then replay_dlq_command
      else missing_argument
