-- ===== src/Store/Balance.antt =====
-- The invariant of the credit tables of internal/store/store.go: the balance that `users` caches is
-- the sum of the user's ledger rows, and an int64 that is not negative.
pub mod Amounts
pub mod Sums
pub mod Operations
pub mod Settlement
use quarkgate.Models.{Time, User, Uuid}
use quarkgate.Prelude.{
  InInt64, if◌then◌else◌, pos, some, ℤ, ◌+ℤ◌, ◌==◌, ◌≡◌, ◌≤ℤ◌, Bool-cases, List, arith, false, inl,
  inr, int_laws, ◌⊎◌, nat_eq, text_eq, int_eq,
}
use quarkgate.Store.{Tables}
use quarkgate.Store.Rows.{find_user, set_user_balance, sum_amounts, find_user-set}

pub record IsSound (t : Tables) : Type 0 where
  pub balanced :
      (i : Uuid) (u : User) → find_user i t.users ≡ some u → u.balance ≡ sum_amounts i t.ledger
  pub bounded :
      (i : Uuid) (u : User)
      → find_user i t.users ≡ some u
      → InInt64 u.balance × (pos 0 ≤ℤ u.balance)

-- A user's row after a write of a balance: the written row, or a row from before.
set_user_balance-eq-some :
    (i j : Uuid) (v : ℤ) (now : Time) (us : List User) {u w : User}
    → find_user i us ≡ some u
    → find_user j (set_user_balance i v now us) ≡ some w
    → ((i ≡ j) × (w.balance ≡ v)) ⊎ (((i == j) ≡ false) × (find_user j us ≡ some w))
set_user_balance-eq-some i j v now us {u} found e = elim (Bool-cases (i == j)) [
  | inl same ↦ inl (ground arith, ground (arith, find_user-set i j v now us))
  | inr other ↦ inr (other, ground (arith, find_user-set i j v now us))
]

-- The written user has the written balance.
pub set_user_balance_self :
    (i : Uuid) (v : ℤ) (now : Time) (us : List User) {u w : User}
    → find_user i us ≡ some u
    → find_user i (set_user_balance i v now us) ≡ some w
    → w.balance ≡ v
set_user_balance_self i v now us found e = elim (set_user_balance-eq-some i i v now us found e) [
  | inl (same, written) ↦ written
  | inr (other, old) ↦ ground arith
]

-- Writing a balance together with ledger rows of the same difference keeps the invariant.
module _ (t t' : Tables) (user : Uuid) (v d : ℤ) (now : Time) {u : User}
    (users : t'.users ≡ set_user_balance user v now t.users)
    (ledger : (i : Uuid)
      → sum_amounts i t'.ledger ≡ sum_amounts i t.ledger +ℤ (if user == i then d else pos 0))
    (found : find_user user t.users ≡ some u) (moved : v ≡ u.balance +ℤ d) (fits : InInt64 v)
    (nonneg : pos 0 ≤ℤ v) where
  moved_balance :
      (i : Uuid) (w : User)
      → IsSound t
      → find_user i (set_user_balance user v now t.users) ≡ some w
      → (w.balance ≡ sum_amounts i t'.ledger) × (InInt64 w.balance × (pos 0 ≤ℤ w.balance))
  moved_balance i w s e = elim (set_user_balance-eq-some user i v now t.users found e) [
    | inl (same, written) ↦
        (ground (arith, ledger i, s.balanced user u found), rw written (fits, nonneg))
    | inr (other, old) ↦
        (rw (ledger i, other, s.balanced i w old) (omega int_laws), s.bounded i w old)
  ]

  pub IsSound-move : IsSound t → IsSound t'
  IsSound-move s = record {
    balanced = λ i w e. (moved_balance i w s (rw users at e)).0;
    bounded = λ i w e. (moved_balance i w s (rw users at e)).1;
  }
