-- ===== src/Repayments/Refresh.antt =====
-- `refreshLoanRepaymentScheduleTx` of internal/app/repayment_corrections.go: a loan recomputed from
-- all its payments.
use kopdes.Base.{
  ℕ, ◌+◌, ◌-◌, ltb, ◌==◌, Bool, true, false, if◌then◌else◌, ℤ, none, some, List, [], ◌∷◌, map, ok,
  err, ◌>>=◌, ◌>>◌, reject_if, found, positive, max_int64,
}
use kopdes.Schedule.Terms.{InstallmentCalculation}
use kopdes.Allocation.{Rows, allocate_one}
use kopdes.Repayments.Types.{
  Loan, LoanStatus, active, adjustment_due, paid, cancelled, Outcome, over_balance,
  schedule_missing, correction_other_active, next_due,
}

-- `item.PaidAmount = 0`
abbrev pub cleared : Rows → Rows
cleared = map (λ (i : InstallmentCalculation). record i { paid_amount = 0 })

-- The loop over the payments, with the total so far.
unfoldable pub refresh_rows : Rows → ℕ → List ℤ → Outcome (Rows × ℕ)
refresh_rows rows total_paid [] = ok (rows, total_paid)
refresh_rows rows total_paid (payment ∷ more) =
    let go = λ (p : ℕ).
      let (rows', remaining) = allocate_one p rows in
      let onward : Outcome (Rows × ℕ) = refresh_rows rows' (total_paid + p) more in
      reject_if (ltb (max_int64 - total_paid) p) over_balance
      >> (reject_if (ltb 0 remaining) over_balance >> onward) in
    positive payment over_balance >>= go

-- The status of a loan that is not paid off; a paid or cancelled one reopens only if the member has no
-- other active loan.
abbrev pub reopened : LoanStatus → Bool → Outcome LoanStatus
reopened adjustment_due another_active = ok adjustment_due
reopened active another_active = ok active
reopened paid another_active = if another_active then err correction_other_active else ok active
reopened cancelled another_active =
    if another_active then err correction_other_active else ok active

abbrev pub has_no_rows : Rows → Bool
has_no_rows [] = true
has_no_rows (_ ∷ _) = false

-- The loan for the amounts of its payments, in the query's order, and for whether another loan of
-- the member is active.
unfoldable pub refresh_schedule : Loan → List ℤ → Bool → Outcome Loan
unfolding refresh_rows
refresh_schedule loan payments another_active = do
  reject_if (has_no_rows loan.installments) schedule_missing
  (rows, total_paid) ← refresh_rows (cleared loan.installments) 0 payments
  reject_if (ltb loan.total_obligation total_paid) over_balance
  let remaining_balance = loan.total_obligation - total_paid
  let settled = record loan {
    remaining_balance = 0;
    status = paid;
    next_due_date = none;
    installments = rows;
  }
  let running = do
    status ← reopened loan.status another_active
    due ← found (next_due rows) over_balance
    ok (record loan {
      remaining_balance = remaining_balance;
      status = status;
      next_due_date = some due;
      installments = rows;
    })
  if remaining_balance == 0 then ok settled else running
