-- ===== src/Metering/Worker/Kept.antt =====
-- What the rest of ProcessEvent of internal/metering/worker.go leaves of the credit tables: all of them,
-- before the settlement and after it.
use quarkgate.Exec.{Result, err, ok, continue, lift}
use quarkgate.Json.{Fields}
use quarkgate.Metering.Normalize.{FloatOps}
use quarkgate.Metering.Worker.{
  Codec, Normalizer, WorkerConfig, after_settlement, cache_balance, charge_event, text_of,
}
use quarkgate.Models.{MeteringSession, Uuid, User}
use quarkgate.Prelude.{Bool-cases, List, inl, inr, refl, ◌≡◌, Dict, Text, ap, ◌∙◌, codes}
use quarkgate.Store.{Db, Tables, settle, statement}
use quarkgate.Store.Usage.{delete_metering_session, get_provider_by_slug}
use quarkgate.Store.Users.{get_user}
use quarkgate.World.{World, on_db}

-- What a statement never changes stays, also where it fails.
statement-keeps :
    {A X : Type 0} (get : Tables → X) (body : Tables → Result A × Tables) (db : Db)
    → ((t : Tables) → get (body t).1 ≡ get t)
    → get (statement body db).1.tables ≡ get db.tables
unfolding statement
statement-keeps {A} get body db same = elim (Bool-cases (db.outage db.statements)) [
  | inl down ↦ rw down refl
  | inr up ↦ rw up (settled (body db.tables) (same db.tables))
]
  where
    settled :
        (r : Result A × Tables)
        → get r.1 ≡ get db.tables
        → get (settle db.tables r).1 ≡ get db.tables
    settled (ok a, t) e = e
    settled (err x, t) e = refl

-- The users, the ledger and the usage logs are the same.
pub record SameCredits (t t' : Tables) : Type 0 where
  pub users : t'.users ≡ t.users
  pub ledger : t'.ledger ≡ t.ledger
  pub usage_logs : t'.usage_logs ≡ t.usage_logs

module _ (ops : FloatOps) (codec : Codec) (driver : Normalizer) (cfg : WorkerConfig) where
  cache_balance-db :
      (user : Uuid) (r : Result User) (w : World)
      → (cache_balance ops codec driver cfg user r w).1.db ≡ w.db
  unfolding cache_balance
  cache_balance-db user (err e) w = refl
  cache_balance-db user (ok u) w = refl

  after_settlement-keeps :
      {X : Type 0} (get : Tables → X) (user request : Uuid) (w : World)
      → ((t : Tables) (ss : List MeteringSession) → get (record t { sessions = ss }) ≡ get t)
      → get (after_settlement ops codec driver cfg user request w).1.db.tables ≡ get w.db.tables
  unfolding after_settlement delete_metering_session get_user
  after_settlement-keeps get user request w same =
      let deleted = delete_metering_session request w.db in
      ap (λ (db : Db). get db.tables) (cache_balance-db user _ _)
      ∙ statement-keeps get _ deleted.1 (λ t. refl)
      ∙ statement-keeps get _ w.db (λ t. same t _)

  pub after_settlement-SameCredits :
      (user request : Uuid) (w : World)
      → SameCredits w.db.tables (after_settlement ops codec driver cfg user request w).1.db.tables
  after_settlement-SameCredits user request w = record {
    users = after_settlement-keeps (λ t. t.users) user request w (λ t ss. refl);
    ledger = after_settlement-keeps (λ t. t.ledger) user request w (λ t ss. refl);
    usage_logs = after_settlement-keeps (λ t. t.usage_logs) user request w (λ t ss. refl);
  }

  pub charge_event-tables :
      (fields : Dict Text Text) (raw : Fields) (w : World)
      → (charge_event ops codec driver cfg fields raw w).1.db.tables ≡ w.db.tables
  unfolding charge_event get_provider_by_slug
  charge_event-tables fields raw w =
      after _ (on_db (get_provider_by_slug (text_of (codes "provider") fields)) w)
      ∙ statement-keeps (λ t. t) _ w.db (λ t. refl)
    where
      after :
          {A B : Type 0} (f : A → Result B) (r : Result A × World)
          → (continue r.0 (λ a. lift (f a)) r.1).1.db.tables ≡ r.1.db.tables
      after f (err e, w) = refl
      after f (ok a, w) = refl
