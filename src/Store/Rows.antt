-- ===== src/Store/Rows.antt =====
-- How the SQL of internal/store/store.go picks rows: lookups by key and the sum over the ledger.
use quarkgate.Models.{LedgerTransaction, Time, User, Uuid}
use quarkgate.Prelude.{
  +ℤ_assoc, Bool, List, Option, Text, [], any, arith, find, if◌then◌else◌, int_laws, none, pos,
  some, update_where, ℤ, ◌++◌, ◌+ℤ◌, ◌==◌, ◌∷◌, ◌≡◌, false, nat_eq, text_eq, int_eq,
}

abbrev pub find_user : Uuid → List User → Option User
find_user i = find (λ (u : User). u.id == i)

-- `UPDATE users SET credit_balance_micro = …, updated_at = NOW() WHERE id = …`
abbrev pub set_user_balance : Uuid → ℤ → Time → List User → List User
set_user_balance i v now =
    update_where (λ (u : User). u.id == i) (λ u. record u { balance = v; updated_at = now })

-- `SUM(amount_micro) … WHERE user_id = …`
abbrev pub sum_amounts : Uuid → List LedgerTransaction → ℤ
sum_amounts i [] = pos 0
sum_amounts i (t ∷ ts) = if t.user_id == i then t.amount +ℤ sum_amounts i ts else sum_amounts i ts

abbrev pub has_idempotency_key : Text → List LedgerTransaction → Bool
has_idempotency_key k = any (λ (t : LedgerTransaction). t.idempotency_key == k)

pub find_user-set :
    (i j : Uuid) (v : ℤ) (now : Time) (us : List User)
    → find_user j (set_user_balance i v now us) ≡ (
        if i == j
        then elim (find_user j us) [
          | none ↦ none
          | some u ↦ some (record u { balance = v; updated_at = now })
        ]
        else find_user j us)
find_user-set i j v now [] = ground arith
find_user-set i j v now (u ∷ us) = ground (arith, find_user-set i j v now us)

pub sum_amounts-append :
    (i : Uuid) (xs ys : List LedgerTransaction)
    → sum_amounts i (xs ++ ys) ≡ sum_amounts i xs +ℤ sum_amounts i ys
sum_amounts-append i [] ys = omega int_laws
sum_amounts-append i (t ∷ ts) ys =
    ground
      (arith, sum_amounts-append i ts ys, +ℤ_assoc t.amount (sum_amounts i ts) (sum_amounts i ys))

-- `reference_id = …`, which no NULL meets
abbrev pub is_reference : Uuid → Option Uuid → Bool
is_reference i none = false
is_reference i (some j) = j == i
