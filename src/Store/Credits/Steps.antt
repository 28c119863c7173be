-- ===== src/Store/Credits/Steps.antt =====
-- The statements of internal/store/store.go on credits, as steps of a block that succeeds: each
-- rule says with what the rest of the block goes on, and from which tables.
use quarkgate.Exec.{Exec, ok, ◌>>=◌}
use quarkgate.Models.{LedgerTransaction, TxnType, User, Uuid}
use quarkgate.Prelude.{
  InInt64, Option, Option-cases, Text, [], arith, false, inl, inr, some, subst, ℤ, ◌++◌, ◌+ℤ◌, ◌+◌,
  ◌∷◌, ◌≡◌, pos, ◌≤ℤ◌,
}
use quarkgate.Store.{Db, Tables, statement}
use quarkgate.Store.Credits.{add_to_balance, insert_transaction, select_balance, update_balance}
use quarkgate.Store.From.{From, From-statement}
use quarkgate.Store.Rows.{find_user, has_idempotency_key, set_user_balance}

abbrev pub with_balance : Tables → Uuid → ℤ → Tables
with_balance t user v = record t { users = set_user_balance user v t.now t.users }

-- The row that `insert_transaction` writes.
abbrev pub new_row : Tables → Uuid → TxnType → ℤ → ℤ → Text → Option Uuid → Text → LedgerTransaction
new_row t user type amount after ref_type ref key = record {
  id = t.next_uuid;
  user_id = user;
  type = type;
  amount = amount;
  balance_after = after;
  reference_type = ref_type;
  reference_id = ref;
  idempotency_key = key;
  created_at = t.now;
}

abbrev pub with_row : Tables → LedgerTransaction → Tables
with_row t row = record t { ledger = t.ledger ++ row ∷ []; next_uuid = t.next_uuid + 1 }

pub select_balance-eq-ok :
    (user : Uuid) (t : Tables) (b : ℤ) (t' : Tables)
    → select_balance user t ≡ (ok b, t')
    → (u : User) × (find_user user t.users ≡ some u) × ◌≡◌ {A = ℤ × Tables} (u.balance, t) (b, t')
unfolding select_balance
select_balance-eq-ok user t b t' h = elim (Option-cases (find_user user t.users)) [
  | inl missing ↦ ground arith
  | inr (u, e) ↦ (u, e, ground arith)
]

pub update_balance-eq-ok :
    (user : Uuid) (v : ℤ) (t : Tables) {u : User} (a : Unit {0}) (t' : Tables)
    → find_user user t.users ≡ some u
    → update_balance user v t ≡ (ok a, t')
    → (pos 0 ≤ℤ v) × ◌≡◌ {A = Unit {0} × Tables} (tt, with_balance t user v) (a, t')
unfolding update_balance
update_balance-eq-ok user v t a t' e h = (ground arith, ground arith)

pub insert_transaction-eq-ok :
    (user : Uuid) (type : TxnType) (amount after : ℤ) (ref_type : Text) (ref : Option Uuid)
    (key : Text) (t : Tables) (id : Uuid) (t' : Tables)
    → insert_transaction user type amount after ref_type ref key t ≡ (ok id, t')
    → (has_idempotency_key key t.ledger ≡ false)
      × ◌≡◌ {A = Uuid × Tables}
          (t.next_uuid, with_row t (new_row t user type amount after ref_type ref key))
          (id, t')
unfolding insert_transaction
insert_transaction-eq-ok user type amount after ref_type ref key t id t' h =
    (ground arith, ground arith)

pub add_to_balance-eq-ok :
    (user : Uuid) (amount : ℤ) (t : Tables) (b : ℤ) (t' : Tables)
    → add_to_balance user amount t ≡ (ok b, t')
    → (u : User) × (find_user user t.users ≡ some u)
      × InInt64 (u.balance +ℤ amount)
      × (pos 0 ≤ℤ (u.balance +ℤ amount))
      × ◌≡◌ {A = ℤ × Tables}
          (u.balance +ℤ amount, with_balance t user (u.balance +ℤ amount))
          (b, t')
unfolding add_to_balance
add_to_balance-eq-ok user amount t b t' h = elim (Option-cases (find_user user t.users)) [
  | inl missing ↦ ground arith
  | inr (u, e) ↦ (u, e, ground arith, ground arith, ground arith)
]

module _ {B : Type 0} {t : Tables} {Q : B → Tables → Type 0} where
  pub From-select_balance :
      (user : Uuid) (f : ℤ → Exec Db B)
      → ((u : User) → find_user user t.users ≡ some u → From t Q (f u.balance))
      → From t Q (statement (select_balance user) >>= f)
  From-select_balance user f k = From-statement (select_balance user) f λ b t' h.
      let (u, found, same) = select_balance-eq-ok user t b t' h in
      subst (λ (r : ℤ × Tables). From r.1 Q (f r.0)) same (k u found)

  pub From-update_balance :
      (user : Uuid) (v : ℤ) (f : Unit {0} → Exec Db B) {u : User}
      → find_user user t.users ≡ some u
      → (pos 0 ≤ℤ v → From (with_balance t user v) Q (f tt))
      → From t Q (statement (update_balance user v) >>= f)
  From-update_balance user v f found k = From-statement (update_balance user v) f λ a t' h.
      let (nonneg, same) = update_balance-eq-ok user v t a t' found h in
      subst (λ (r : Unit {0} × Tables). From r.1 Q (f r.0)) same (k nonneg)

  pub From-add_to_balance :
      (user : Uuid) (amount : ℤ) (f : ℤ → Exec Db B)
      → ((u : User)
          → find_user user t.users ≡ some u
          → InInt64 (u.balance +ℤ amount)
          → pos 0 ≤ℤ (u.balance +ℤ amount)
          → From (with_balance t user (u.balance +ℤ amount)) Q (f (u.balance +ℤ amount)))
      → From t Q (statement (add_to_balance user amount) >>= f)
  From-add_to_balance user amount f k = From-statement (add_to_balance user amount) f λ b t' h.
      let (u, found, fits, nonneg, same) = add_to_balance-eq-ok user amount t b t' h in
      subst (λ (r : ℤ × Tables). From r.1 Q (f r.0)) same (k u found fits nonneg)

  pub From-insert_transaction :
      (user : Uuid) (type : TxnType) (amount after : ℤ) (ref_type : Text) (ref : Option Uuid)
      (key : Text) (f : Uuid → Exec Db B)
      → (has_idempotency_key key t.ledger ≡ false
          → From (with_row t (new_row t user type amount after ref_type ref key)) Q (f t.next_uuid))
      → From t Q (statement (insert_transaction user type amount after ref_type ref key) >>= f)
  From-insert_transaction user type amount after ref_type ref key f k =
      From-statement (insert_transaction user type amount after ref_type ref key) f λ id t' h.
        let (fresh, same) =
          insert_transaction-eq-ok user type amount after ref_type ref key t id t' h in
        subst (λ (r : Uuid × Tables). From r.1 Q (f r.0)) same (k fresh)
