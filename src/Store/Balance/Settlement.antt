-- ===== src/Store/Balance/Settlement.antt =====
-- A hold and the settlement after it, as Worker.ProcessEvent of internal/metering/worker.go makes
-- them: what the two together take from the balance.
use quarkgate.Exec.{ok}
use quarkgate.Metering.Hold.{capture_release, capture_release_split, parts_fit}
use quarkgate.Models.{UsageLog, User, Uuid}
use quarkgate.Prelude.{
  InInt64, Text, pos, some, ℤ, ◌-ℤ◌, ◌≡◌, ◌≤ℤ◌, refl, int_laws, neg, ap, neg_part, pos_part,
}
use quarkgate.Store.{Db}
use quarkgate.Store.Balance.{IsSound, set_user_balance_self}
use quarkgate.Store.Balance.Amounts.{hold_amounts, entry_amount, entry_amount_of_nonneg, neg-zero}
use quarkgate.Store.Balance.Operations.{hold-IsSound, settle-users, settled_amounts}
use quarkgate.Store.Credits.{LedgerTxnIds, apply_hold, capture_and_release}
use quarkgate.Store.Credits.Effects.{apply_hold-HoldDone, HoldDone}
use quarkgate.Store.Credits.Settle.{capture_and_release-SettleDone, settled_balance}
use quarkgate.Store.Rows.{find_user}

module _ (show_uuid : Uuid → Text) (user request : Uuid) (amount used : ℤ)
    (hold_key client_key : Text) (usage : UsageLog) {b : ℤ} {ids : LedgerTxnIds} (db db₁ db₂ : Db)
    (u : User) (sound : IsSound db.tables) (found : find_user user db.tables.users ≡ some u)
    (fits_amount : InInt64 amount) (fits_used : InInt64 used) (nonneg_amount : pos 0 ≤ℤ amount)
    (nonneg_used : pos 0 ≤ℤ used) (held : apply_hold user amount request hold_key db ≡ (ok b, db₁))
    (settled : capture_and_release show_uuid user request
        (capture_release amount used).0
        (capture_release amount used).1
        usage
        client_key
        db₁
      ≡ (ok ids, db₂)) where
  d₁ : HoldDone db.tables user amount request hold_key b db₁.tables
  d₁ = (apply_hold-HoldDone db.tables user amount request hold_key).at db refl b db₁ held

  -- The hold has taken its amount off.
  held-balance : b ≡ u.balance -ℤ amount
  held-balance =
      let same : d₁.before ≡ u = cc (d₁.found) in
      let (fb, nb) = sound.bounded user d₁.before d₁.found in
      rw (d₁.balance, ← same)
        (hold_amounts d₁.before.balance amount fb nb fits_amount d₁.covered
          (rw (← d₁.balance) d₁.nonneg)).0

  -- From balances that are the ledger sums, after a hold and the settlement of its parts that both
  -- succeed, for an amount and a usage that are int64s and not negative: the request has cost twice
  -- what was captured. The hold takes the amount off, and the settlement takes the captured part off
  -- once more and gives back the released part.
  pub hold_settle-balance :
      (w : User)
      → find_user user db₂.tables.users ≡ some w
      → w.balance ≡ u.balance -ℤ (capture_release amount used).0 -ℤ (capture_release amount used).0
  hold_settle-balance w e =
      let (charge, whole, nc, nr) =
        capture_release_split amount used fits_amount fits_used nonneg_amount nonneg_used in
      let d₂ =
        (capture_and_release-SettleDone show_uuid db₁.tables user request _ _ usage client_key).at
          db₁ refl ids db₂ settled in
      let sound₁ : IsSound db₁.tables =
        hold-IsSound _ user amount request hold_key b _ fits_amount sound d₁ in
      let c = (capture_release amount used).0 in
      let r = (capture_release amount used).1 in
      let (fits_c, fits_r) = parts_fit c r amount whole nc nr fits_amount in
      let (sum, _) =
        settled_amounts db₁.tables user request c r usage _ _ ids db₂.tables fits_c fits_r sound₁
          d₂ in
      let written : w.balance ≡ settled_balance c r d₂.before.balance =
        set_user_balance_self user _ _ db₁.tables.users d₂.found (
          rw
            (settle-users db₁.tables user request c r usage _ _ ids db₂.tables fits_c fits_r sound₁
              d₂)
            at e) in
      let before₂ : d₂.before.balance ≡ b =
        set_user_balance_self user b _ db.tables.users found (rw d₁.tables at d₂.found) in
      let row_c : entry_amount c (neg c) ≡ neg c =
        entry_amount_of_nonneg c (neg c) nc (omega int_laws, omega int_laws) (λ z. rw z neg-zero) in
      let row_r : entry_amount r r ≡ r = entry_amount_of_nonneg r r nr fits_r (λ z. z) in
      rw (written, sum, before₂, held-balance, row_c, row_r)
        (omega (int_laws, ap pos_part whole, ap neg_part whole))
