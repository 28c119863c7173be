-- ===== src/World/Sound.antt =====
-- Which calls keep the invariant of the credit tables, in the state that the gateway and the ledger
-- worker share: one rule for each way to build a call.
use quarkgate.Exec.{
  Exec, Result, Error, attempt, continue, err, ignore, lift, ok, or_fail, ◌>>=◌, ◌>>◌,
}
use quarkgate.Models.{Uuid, MeteringSession, QuarkGateKey, Time, UsageLog}
use quarkgate.Prelude.{
  Bool-cases, inl, inr, ◌≡◌, Option, none, some, refl, Text, any, is_some, ℤ, ◌&&◌, ◌==◌, nat_eq,
  text_eq, int_eq,
}
use quarkgate.Redis.{Redis}
use quarkgate.Store.{Db, Tables, statement, settle}
use quarkgate.Store.Balance.{IsSound}
use quarkgate.Store.Keys.{active_keys_by_prefix}
use quarkgate.Store.Rows.{find_user}
use quarkgate.Store.Usage.{
  delete_metering_session, create_metering_session, create_usage_log, get_provider_by_slug,
}
use quarkgate.Store.Users.{get_user}
use quarkgate.World.{World, on_db, on_redis}

pub record KeepsSound {A : Type 0} (m : Exec World A) : Type 0 where
  pub at : (w : World) → IsSound w.db.tables → IsSound (m w).1.db.tables

-- Only the users and the ledger matter.
pub IsSound-same :
    (t t' : Tables) → t'.users ≡ t.users → t'.ledger ≡ t.ledger → IsSound t → IsSound t'
IsSound-same t t' users ledger s = record {
  balanced = λ i u e. rw ledger (s.balanced i u (rw (← users) e));
  bounded = λ i u e. s.bounded i u (rw (← users) e);
}

-- The body of a statement leaves the users and the ledger alone.
abbrev pub SparesCredits : {A : Type 0} → Exec Tables A → Type 0
SparesCredits body = (t : Tables) → ((body t).1.users ≡ t.users) × ((body t).1.ledger ≡ t.ledger)

settle-IsSound :
    {A : Type 0} (before : Tables) (r : Result A) (after : Tables)
    → (after.users ≡ before.users) × (after.ledger ≡ before.ledger)
    → IsSound before
    → IsSound (settle before (r, after)).1
settle-IsSound before (ok a) after (users, ledger) s = IsSound-same before after users ledger s
settle-IsSound before (err e) after same s = s

pub statement-IsSound :
    {A : Type 0} (body : Exec Tables A)
    → SparesCredits body
    → (db : Db) → IsSound db.tables
    → IsSound (statement body db).1.tables
unfolding statement
statement-IsSound body spares db s = elim (Bool-cases (db.outage db.statements)) [
  | inl down ↦ rw down s
  | inr up ↦
      rw up (settle-IsSound db.tables (body db.tables).0 (body db.tables).1 (spares db.tables) s)
]

pub KeepsSound-on_db :
    {A : Type 0} (m : Exec Db A)
    → ((db : Db) → IsSound db.tables → IsSound (m db).1.tables)
    → KeepsSound (on_db m)
KeepsSound-on_db m k = record { at = λ w s. k w.db s }

-- A statement that spares the credits.
pub KeepsSound-statement :
    {A : Type 0} (body : Exec Tables A) → SparesCredits body → KeepsSound (on_db (statement body))
KeepsSound-statement body spares = record { at = λ w s. statement-IsSound body spares w.db s }

pub KeepsSound-on_redis : {A : Type 0} (m : Exec Redis A) → KeepsSound (on_redis m)
KeepsSound-on_redis m = record { at = λ w s. s }

pub KeepsSound-lift : {A : Type 0} (r : Result A) → KeepsSound (lift r)
KeepsSound-lift r = record { at = λ w s. s }

pub KeepsSound-or_fail : {A : Type 0} (o : Option A) (e : Error) → KeepsSound (or_fail o e)
KeepsSound-or_fail none e = record { at = λ w s. s }
KeepsSound-or_fail (some a) e = record { at = λ w s. s }

pub KeepsSound-ignore : {A : Type 0} (m : Exec World A) → KeepsSound m → KeepsSound (ignore m)
KeepsSound-ignore m k = record { at = λ w s. k.at w s }

pub KeepsSound-attempt : {A : Type 0} (m : Exec World A) → KeepsSound m → KeepsSound (attempt m)
KeepsSound-attempt m k = record { at = λ w s. k.at w s }

pub KeepsSound-bind :
    {A B : Type 0} (m : Exec World A) (f : A → Exec World B)
    → KeepsSound m
    → ((a : A) → KeepsSound (f a))
    → KeepsSound (m >>= f)
KeepsSound-bind {A} {B} m f km kf = record { at = λ w s. goes_on (m w).0 (m w).1 (km.at w s) }
  where
    goes_on :
        (r : Result A) (w : World) → IsSound w.db.tables → IsSound (continue r f w).1.db.tables
    goes_on (ok a) w s = (kf a).at w s
    goes_on (err e) w s = s

pub KeepsSound-then :
    {A B : Type 0} (m : Exec World A) (n : Exec World B)
    → KeepsSound m
    → KeepsSound n
    → KeepsSound (m >> n)
KeepsSound-then m n km kn = KeepsSound-bind m (λ _. n) km (λ _. kn)

pub get_user-IsSound :
    (user : Uuid) (db : Db) → IsSound db.tables → IsSound (get_user user db).1.tables
unfolding get_user
get_user-IsSound user db s = statement-IsSound _ (λ t. (refl, refl)) db s

pub delete_metering_session-IsSound :
    (request : Uuid) (db : Db)
    → IsSound db.tables
    → IsSound (delete_metering_session request db).1.tables
unfolding delete_metering_session
delete_metering_session-IsSound request db s = statement-IsSound _ (λ t. (refl, refl)) db s

pub get_provider_by_slug-IsSound :
    (slug : Text) (db : Db) → IsSound db.tables → IsSound (get_provider_by_slug slug db).1.tables
unfolding get_provider_by_slug
get_provider_by_slug-IsSound slug db s = statement-IsSound _ (λ t. (refl, refl)) db s

pub active_keys_by_prefix-IsSound :
    (prefix : Text) (db : Db)
    → IsSound db.tables
    → IsSound (active_keys_by_prefix prefix db).1.tables
unfolding active_keys_by_prefix
active_keys_by_prefix-IsSound prefix db s = statement-IsSound _ (λ t. (refl, refl)) db s

pub create_usage_log-IsSound :
    (log : UsageLog) (db : Db) → IsSound db.tables → IsSound (create_usage_log log db).1.tables
unfolding create_usage_log
create_usage_log-IsSound log db s =
    statement-IsSound _
      (λ t.
        elim (Bool-cases (any (λ (l : UsageLog). l.request_id == log.request_id) t.usage_logs)) [
          | inl old ↦ rw old (refl, refl)
          | inr new ↦
              elim (Bool-cases (
                is_some (find_user log.user_id t.users)
                && any (λ (k : QuarkGateKey). k.id == log.key_id) t.keys)) [
                  | inl known ↦ rw (new, known) (refl, refl)
                  | inr unknown ↦ rw (new, unknown) (refl, refl)
                ]
        ])
      db s

pub create_metering_session-IsSound :
    (request user : Uuid) (hold : ℤ) (expires : Time) (db : Db)
    → IsSound db.tables
    → IsSound (create_metering_session request user hold expires db).1.tables
unfolding create_metering_session
create_metering_session-IsSound request user hold expires db s =
    statement-IsSound _
      (λ t. elim (Bool-cases (any (λ (m : MeteringSession). m.request_id == request) t.sessions)) [
        | inl old ↦ rw old (refl, refl)
        | inr new ↦ elim (Bool-cases (is_some (find_user user t.users))) [
          | inl known ↦ rw (new, known) (refl, refl)
          | inr unknown ↦ rw (new, unknown) (refl, refl)
        ]
      ])
      db s
