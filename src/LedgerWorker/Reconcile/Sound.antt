-- ===== src/LedgerWorker/Reconcile/Sound.antt =====
-- runReconciliation of cmd/ledger-worker/main.go and the invariant of the credit tables.
use quarkgate.Exec.{ignore, ok, Result, continue, err}
use quarkgate.LedgerWorker.Reconcile.{reconcile, reconcile_each, reconcile_tick, fix_row}
use quarkgate.LedgerWorker.Reconcile.Balanced.{ledger_balance-eq-ok}
use quarkgate.Models.{User, Uuid}
use quarkgate.Prelude.{
  Bool-cases, InInt64, Option-cases, inl, inr, ltb_ℤ, pos, refl, Bool, true, List, Text, [], arith,
  int_laws, map, ℤ, ◌==◌, ◌∷◌, ◌≡◌, ap, beq_ℤ, subst, sym, ◌∙◌, nat_eq, text_eq, int_eq,
}
use quarkgate.Redis.Keys.{balance_key}
use quarkgate.Redis.Values.{set_text}
use quarkgate.Store.{Tables, Db, statement, settle, statement-eq-ok}
use quarkgate.Store.Balance.{IsSound, IsSound-move}
use quarkgate.Store.Credits.{update_balance, set_user_balance_from_ledger, ledger_balance}
use quarkgate.Store.Rows.{find_user, sum_amounts}
use quarkgate.World.{on_db, World, on_redis}
use quarkgate.World.Sound.{
  KeepsSound, KeepsSound-bind, KeepsSound-ignore, KeepsSound-statement, KeepsSound-then,
  statement-IsSound,
}

-- Writing the sum of the ledger, where it is an int64, keeps the invariant.
write_sum-IsSound :
    (id : Uuid) (t : Tables)
    → InInt64 (sum_amounts id t.ledger)
    → IsSound t
    → IsSound (update_balance id (sum_amounts id t.ledger) t).1
unfolding update_balance
write_sum-IsSound id t fits s = elim (Option-cases (find_user id t.users)) [
  | inl missing ↦ rw missing s
  | inr (u, found) ↦ elim (Bool-cases (ltb_ℤ (sum_amounts id t.ledger) (pos 0))) [
    | inl negative ↦ rw (found, negative) s
    | inr covered ↦
        rw (found, covered)
          (IsSound-move t _ id (sum_amounts id t.ledger) (pos 0) t.now refl
            (λ i. elim (Bool-cases (id == i)) [
              | inl own ↦ rw own (omega int_laws)
              | inr other ↦ rw other (omega int_laws)
            ])
            found (rw (s.balanced id u found) (omega int_laws)) fits (ground arith) s)
  ]
]

set_user_balance_from_ledger-IsSound :
    (id : Uuid) (total : ℤ) (db : Db)
    → InInt64 total
    → total ≡ sum_amounts id db.tables.ledger
    → IsSound db.tables
    → IsSound (set_user_balance_from_ledger id total db).1.tables
unfolding set_user_balance_from_ledger statement
set_user_balance_from_ledger-IsSound id total db fits sum s =
    elim (Bool-cases (db.outage db.statements)) [
      | inl down ↦ rw down s
      | inr up ↦ rw up (
          settled (update_balance id total db.tables) (
            subst (λ x. IsSound (update_balance id x db.tables).1) (sym sum)
              (write_sum-IsSound id db.tables (subst (λ x. InInt64 x) sum fits) s)))
    ]
  where
    settled : (r : Result (Unit {0}) × Tables) → IsSound r.1 → IsSound (settle db.tables r).1
    settled (ok a, t) k = k
    settled (err e, t) k = s

pub ledger_balance-IsSound :
    (id : Uuid) (db : Db) → IsSound db.tables → IsSound (ledger_balance id db).1.tables
unfolding ledger_balance
ledger_balance-IsSound id db s = statement-IsSound _ (λ t. (refl, refl)) db s

-- The sum that was read is an int64.
pub ledger_balance-Sum :
    (id : Uuid) (db : Db) (total : ℤ) (db' : Db)
    → ledger_balance id db ≡ (ok total, db')
    → InInt64 total × (total ≡ sum_amounts id db'.tables.ledger)
unfolding ledger_balance
ledger_balance-Sum id db total db' h =
    let read = statement-eq-ok _ db h in
    let (sum, same) = ledger_balance-eq-ok id db.tables total db'.tables read in
    (
      (ground (arith, read), ground (arith, read)),
      sum ∙ ap (λ (t : Tables). sum_amounts id t.ledger) (sym same),
    )

module _ (show_uuid : Uuid → Text) (format_int : ℤ → Text) where
  -- The rest of a row once its sum was read, where a sum that is written is still the ledger's.
  pub fix_row-IsSound :
      (auto_fix : Bool) (id : Uuid) (cached total : ℤ) (w : World)
      → InInt64 total
      → (auto_fix ≡ true → total ≡ sum_amounts id w.db.tables.ledger)
      → IsSound w.db.tables
      → IsSound (fix_row show_uuid format_int auto_fix id cached total w).1.db.tables
  unfolding fix_row
  fix_row-IsSound auto_fix id cached total w fits sum s = elim (Bool-cases (beq_ℤ total cached)) [
    | inl equal ↦ rw equal s
    | inr drift ↦ elim (Bool-cases auto_fix) [
      | inl fixes ↦
          rw (drift, fixes)
            (written (set_user_balance_from_ledger id total w.db).0 _
              (set_user_balance_from_ledger-IsSound id total w.db fits (sum fixes) s))
      | inr reports ↦ rw (drift, reports) s
    ]
  ]
    where
      written :
          (r : Result (Unit {0})) (db : Db)
          → IsSound db.tables
          → IsSound
              (continue r
                (λ _.
                  ignore (on_redis (set_text (balance_key (show_uuid id)) (format_int total) 0)))
                (record w { db = db })).1.db.tables
      written (ok a) db k = k
      written (err e) db k = k

  reconcile-KeepsSound :
      (auto_fix : Bool) (row : Uuid × ℤ) → KeepsSound (reconcile show_uuid format_int auto_fix row)
  unfolding reconcile
  reconcile-KeepsSound auto_fix (id, cached) = record {
    at = λ w s.
        after w (ledger_balance id w.db).0 (ledger_balance id w.db).1 refl
          (ledger_balance-IsSound id w.db s);
  }
    where
      after :
          (w : World) (r : Result ℤ) (db : Db)
          → ledger_balance id w.db ≡ (r, db)
          → IsSound db.tables
          → IsSound
              (continue r
                (fix_row show_uuid format_int auto_fix id cached)
                (record w { db = db })).1.db.tables
      after w (err e) db h s = s
      after w (ok total) db h s =
          let (fits, sum) = ledger_balance-Sum id w.db total db h in
          fix_row-IsSound auto_fix id cached total (record w { db = db }) fits (λ _. sum) s

  reconcile_each-KeepsSound :
      (auto_fix : Bool) (rows : List (Uuid × ℤ))
      → KeepsSound (reconcile_each show_uuid format_int auto_fix rows)
  unfolding reconcile_each
  reconcile_each-KeepsSound auto_fix [] = record { at = λ w s. s }
  reconcile_each-KeepsSound auto_fix (row ∷ rows) =
      KeepsSound-then (ignore (reconcile show_uuid format_int auto_fix row)) _
        (KeepsSound-ignore _ (reconcile-KeepsSound auto_fix row))
        (reconcile_each-KeepsSound auto_fix rows)

  -- A tick of the reconciliation keeps the balances equal to the ledger sums and not negative.
  pub reconcile_tick-KeepsSound :
      (auto_fix : Bool) → KeepsSound (reconcile_tick show_uuid format_int auto_fix)
  unfolding reconcile_tick
  reconcile_tick-KeepsSound auto_fix =
      KeepsSound-bind
        (on_db (statement λ t. (ok (map (λ (u : User). (u.id, u.balance)) t.users), t))) _
        (KeepsSound-statement _ (λ t. (refl, refl))) (reconcile_each-KeepsSound auto_fix)
