-- ===== src/Store/Usage/Created.antt =====
-- The tables after CreateMeteringSession and CreateUsageLog of internal/store/store.go succeeded.
use quarkgate.Exec.{Result, ok}
use quarkgate.Models.{QuarkGateKey, MeteringSession, UsageLog, Time, Uuid}
use quarkgate.Prelude.{
  Bool-cases, [], any, ap, inl, inr, is_some, refl, ℤ, ◌&&◌, ◌++◌, ◌==◌, ◌∷◌, ◌≡◌, nat_eq, text_eq,
  int_eq,
}
use quarkgate.Store.{Tables, Db, statement-eq-ok}
use quarkgate.Store.Rows.{find_user}
use quarkgate.Store.Usage.{create_metering_session, create_usage_log}

-- A session that was created is there, and the ledger is as before.
pub create_metering_session-eq-ok :
    (request user : Uuid) (hold : ℤ) (expires : Time) (db db' : Db)
    → create_metering_session request user hold expires db ≡ (ok tt, db')
    → (db'.tables.ledger ≡ db.tables.ledger)
      × ((m : MeteringSession) × (db'.tables.sessions ≡ db.tables.sessions ++ m ∷ [])
          × (m.request_id ≡ request)
          × (m.user_id ≡ user)
          × (m.hold ≡ hold))
unfolding create_metering_session
create_metering_session-eq-ok request user hold expires db db' e =
    elim (Bool-cases (any (λ (m : MeteringSession). m.request_id == request) db.tables.sessions)) [
      | inl old ↦ cc (rw old at (statement-eq-ok _ db e))
      | inr new ↦ elim (Bool-cases (is_some (find_user user db.tables.users))) [
        | inr unknown ↦ cc (rw (new, unknown) at (statement-eq-ok _ db e))
        | inl known ↦
            let after =
              ap (λ (r : Result (Unit {0}) × Tables). r.1)
                (rw (new, known) at (statement-eq-ok _ db e)) in
            rw (← after) (
              refl,
              (
                record { request_id = request; user_id = user; hold = hold; expires_at = expires },
                refl,
                refl,
                refl,
                refl,
              ),
            )
      ]
    ]

-- A usage log that was created leaves the ledger as it was.
pub create_usage_log-eq-ok :
    (log : UsageLog) (db db' : Db)
    → create_usage_log log db ≡ (ok tt, db')
    → db'.tables.ledger ≡ db.tables.ledger
unfolding create_usage_log
create_usage_log-eq-ok log db db' e =
    elim (Bool-cases
      (any (λ (l : UsageLog). l.request_id == log.request_id) db.tables.usage_logs)) [
        | inl old ↦ cc (rw old at (statement-eq-ok _ db e))
        | inr new ↦
            elim (Bool-cases (
              is_some (find_user log.user_id db.tables.users)
              && any (λ (k : QuarkGateKey). k.id == log.key_id) db.tables.keys)) [
                | inr unknown ↦ cc (rw (new, unknown) at (statement-eq-ok _ db e))
                | inl known ↦
                    let after =
                      ap (λ (r : Result (Unit {0}) × Tables). r.1)
                        (rw (new, known) at (statement-eq-ok _ db e)) in
                    rw (← after) refl
              ]
      ]
