-- ===== src/Calendar/DueDates.antt =====
-- About `loanDueDate` of internal/app/loan_schedule.go.
use kopdes.Base.{ℕ, suc, ◌+◌, ◌≡◌, refl, true, arith, ltb, if◌then◌else◌}
use kopdes.Calendar.{Date, days_in_month, is_valid, month_index, loan_due_date}

-- The n-th due date is the 20th, a date of the calendar, n months after the start's month, or one more month later when
-- the loan starts after the 20th.
pub loan_due_date_lem :
    (start : Date) (n : ℕ)
    → let due = loan_due_date start (suc n) in
      (due.day ≡ 20)
      × (is_valid due ≡ true)
      × (month_index due ≡ month_index start + (if ltb 20 start.day then 2 else 1) + n)
unfolding loan_due_date is_valid days_in_month
loan_due_date_lem start n = (refl, ground arith, ground arith)
