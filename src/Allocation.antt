-- ===== src/Allocation.antt =====
-- Payments over the installments of a loan, oldest first: `allocateRepaymentsOldestFirst` of
-- internal/app/loan_schedule.go, the loop of `recordRepaymentTx` of internal/app/repayments.go and
-- the loop of `refreshLoanRepaymentScheduleTx` of internal/app/repayment_corrections.go.
pub mod Poured
pub mod Refines
use kopdes.Base.{
  ℕ, ◌+◌, ◌-◌, ◌<◌, ltb, leb, ◌==◌, if◌then◌else◌, ℤ, List, [], ◌∷◌, keep, Result, ok, err, ◌>>=◌,
  ◌>>◌, positive, reject_if, max_int64, add64,
}
use kopdes.Schedule.Terms.{InstallmentCalculation}

abbrev pub Rows : Type 0
Rows = List InstallmentCalculation

-- `applied := remaining; if applied > unpaid { applied = unpaid }`
abbrev pub applied_of : ℕ → ℕ → ℕ
applied_of remaining unpaid = if ltb unpaid remaining then unpaid else remaining

-- `paid_amount=paid_amount+applied`
abbrev pub pay : ℕ → InstallmentCalculation → InstallmentCalculation
pay applied i = record i { paid_amount = i.paid_amount + applied }

-- One payment over the installments: the rows, and what is left of it.
unfoldable pub allocate_one : ℕ → Rows → Rows × ℕ
allocate_one remaining [] = ([], remaining)
allocate_one remaining (i ∷ rest) =
    let unpaid = i.scheduled_amount - i.paid_amount in
    let applied = applied_of remaining unpaid in
    let left = remaining - applied in
    let skipped : Rows × ℕ = let (rest', r) = allocate_one remaining rest in (i ∷ rest', r) in
    let paid : Rows × ℕ = let (rest', r) = allocate_one left rest in (pay applied i ∷ rest', r) in
    if leb i.scheduled_amount i.paid_amount
    then skipped
    else (if left == 0 then (pay applied i ∷ rest, 0) else paid)

pub data AllocationError : Type 0 where
  repayment_not_positive : AllocationError
  -- with the amount that was allocated
  exceeds_obligation : ℕ → AllocationError

unfoldable pub allocate_from : Rows → ℕ → List ℤ → Result AllocationError (Rows × ℕ)
allocate_from rows total_paid [] = ok (rows, total_paid)
allocate_from rows total_paid (repayment ∷ more) =
    let go = λ (r : ℕ).
      let (rows', remaining) = allocate_one r rows in
      let total' = total_paid + (r - remaining) in
      let onward : Result AllocationError (Rows × ℕ) = allocate_from rows' total' more in
      if ltb 0 remaining then err (exceeds_obligation total') else onward in
    positive repayment repayment_not_positive >>= go

-- `allocateRepaymentsOldestFirst`: the rows and the total paid; an error leaves the rows alone. The
-- total is at most what is unpaid, so it stays a plain number.
unfoldable pub allocate_repayments_oldest_first : Rows → List ℤ → Result AllocationError (Rows × ℕ)
unfolding allocate_from
allocate_repayments_oldest_first rows repayments = allocate_from rows 0 repayments

-- `UPDATE loan_installments SET paid_amount=paid_amount+$1 WHERE id=$2`; within one loan the
-- installment's number is its key.
unfoldable pub update_paid : ℕ → ℕ → Rows → Rows
update_paid applied number [] = []
update_paid applied number (i ∷ rest) =
    (if i.number == number then pay applied i else i) ∷ update_paid applied number rest

-- `SELECT … WHERE paid_amount < scheduled_amount ORDER BY installment_no`
abbrev pub unpaid_rows : Rows → Rows
unpaid_rows = keep (λ (i : InstallmentCalculation). ltb i.paid_amount i.scheduled_amount)

-- The loop of `recordRepaymentTx` over the unpaid installments, on the table.
unfoldable pub post_payment : ℕ → Rows → Rows → Rows × ℕ
post_payment remaining [] table = (table, remaining)
post_payment remaining (i ∷ rest) table =
    let applied = applied_of remaining (i.scheduled_amount - i.paid_amount) in
    let onward : Rows × ℕ =
      post_payment (remaining - applied) rest (update_paid applied i.number table) in
    if remaining == 0 then (table, 0) else onward
