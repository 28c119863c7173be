-- ===== src/Store/Balance/Sums.antt =====
-- The sum of a user's ledger rows after one row more, or after a conditional one.
use quarkgate.Models.{LedgerTransaction, TxnType, Uuid}
use quarkgate.Prelude.{
  Bool, Bool-cases, Text, false, if◌then◌else◌, inl, inr, int_laws, ltb_ℤ, pos, true, ℤ, ◌+ℤ◌, ◌==◌,
  ◌≡◌, nat_eq, text_eq, int_eq,
}
use quarkgate.Store.{Tables}
use quarkgate.Store.Balance.Amounts.{entry_amount}
use quarkgate.Store.Credits.Entries.{with_entry}
use quarkgate.Store.Credits.Steps.{with_row}
use quarkgate.Store.Rows.{sum_amounts, sum_amounts-append}

pub sum_amounts-with_row :
    (i : Uuid) (t : Tables) (row : LedgerTransaction)
    → sum_amounts i (with_row t row).ledger
      ≡ sum_amounts i t.ledger +ℤ (if row.user_id == i then row.amount else pos 0)
sum_amounts-with_row i t row = elim (Bool-cases (row.user_id == i)) [
  | inl e ↦ rw (sum_amounts-append, e) (omega int_laws)
  | inr e ↦ rw (sum_amounts-append, e) (omega int_laws)
]

pub sum_amounts-with_entry :
    (i : Uuid) (t : Tables) (user : Uuid) (type : TxnType) (amount signed b : ℤ) (request : Uuid)
    (key : Text)
    → sum_amounts i (with_entry t user type amount signed b request key).ledger
      ≡ sum_amounts i t.ledger +ℤ (if user == i then entry_amount amount signed else pos 0)
sum_amounts-with_entry i t user type amount signed b request key =
    elim (Bool-cases (ltb_ℤ (pos 0) amount)) [
      | inl e ↦ rw e (sum_amounts-with_row i t _)
      | inr e ↦ elim (Bool-cases (user == i)) [
        | inl same ↦ rw (e, same) (omega int_laws)
        | inr other ↦ rw (e, other) (omega int_laws)
      ]
    ]

-- Two differences at one user.
pub two_moves :
    (b : Bool) (s a c : ℤ)
    → s +ℤ (if b then a else pos 0) +ℤ (if b then c else pos 0) ≡ s +ℤ (if b then a +ℤ c else pos 0)
two_moves true s a c = omega int_laws
two_moves false s a c = omega int_laws
