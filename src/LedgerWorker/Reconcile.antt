-- ===== src/LedgerWorker/Reconcile.antt =====
-- runReconciliation of cmd/ledger-worker/main.go: what one tick does with the users. And the
-- command `reconcile-user` of cmd/admin/main.go.
pub mod Balanced
pub mod Sound
pub mod Race
use quarkgate.Exec.{Exec, ignore, ok, pure, ◌>>=◌, ◌>>◌}
use quarkgate.Models.{User, Uuid}
use quarkgate.Prelude.{Bool, List, Text, [], beq_ℤ, if◌then◌else◌, map, ℤ, ◌∷◌}
use quarkgate.Redis.Keys.{balance_key}
use quarkgate.Redis.Values.{set_text}
use quarkgate.Store.{statement}
use quarkgate.Store.Credits.{ledger_balance, reconcile_user_balance, set_user_balance_from_ledger}
use quarkgate.World.{World, on_db, on_redis}

module _ (show_uuid : Uuid → Text) (format_int : ℤ → Text) where
  -- The rest of the loop's body once the sum of the ledger was read.
  unfoldable pub fix_row : Bool → Uuid → ℤ → ℤ → Exec World (Unit {0})
  fix_row auto_fix id cached ledger =
      if beq_ℤ ledger cached
      then pure tt
      else if auto_fix
      then (do
        on_db (set_user_balance_from_ledger id ledger)
        ignore (on_redis (set_text (balance_key (show_uuid id)) (format_int ledger) 0)))
      else ignore (on_redis (set_text (balance_key (show_uuid id)) (format_int cached) 0))

  -- The body of the loop for one row `id, cached`: two statements, between which others may run.
  unfoldable pub reconcile : Bool → Uuid × ℤ → Exec World (Unit {0})
  reconcile auto_fix (id, cached) = on_db (ledger_balance id) >>= fix_row auto_fix id cached

  unfoldable pub reconcile_each : Bool → List (Uuid × ℤ) → Exec World (Unit {0})
  reconcile_each auto_fix [] = pure tt
  reconcile_each auto_fix (row ∷ rows) =
      ignore (reconcile auto_fix row) >> reconcile_each auto_fix rows

  -- One tick, where nothing else runs between its statements
  unfoldable pub reconcile_tick : Bool → Exec World (Unit {0})
  reconcile_tick auto_fix = do
    rows ← on_db (statement λ t. (ok (map (λ (u : User). (u.id, u.balance)) t.users), t))
    reconcile_each auto_fix rows

  -- `reconcile-user`: the cached balance and the sum of the ledger, which were compared
  unfoldable pub reconcile_user : Uuid → Exec World (ℤ × ℤ)
  reconcile_user id = do
    (cached, ledger) ← on_db (reconcile_user_balance id)
    if beq_ℤ cached ledger then pure (cached, ledger) else (do
      on_db (set_user_balance_from_ledger id ledger)
      ignore (on_redis (set_text (balance_key (show_uuid id)) (format_int ledger) 0))
      pure (cached, ledger))
