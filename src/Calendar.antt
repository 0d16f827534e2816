-- ===== src/Calendar.antt =====
-- Loan dates of internal/app/loan_schedule.go: a `time.Time` at midnight in Jakarta is its
-- calendar date. `time.Date` carries months beyond December into the years. A zone in which
-- some midnight does not exist (Jakarta's clock changes before 1964) is left out.
pub mod Text
pub mod DueDates
pub mod RoundTrip
use kopdes.Base.{
  ℕ, zero, suc, ◌+◌, ◌-◌, ◌*◌, ◌/◌, ◌%◌, ◌≤◌, ◌≡◌, Bool, true, false, not, ◌&&◌, ◌||◌, ltb, leb,
  ◌==◌, if◌then◌else◌, List, [], ◌∷◌,
}

pub record Date : Type 0 where
  pub year : ℕ
  pub month : ℕ
  pub day : ℕ

unfoldable pub is_leap : ℕ → Bool
is_leap y = y % 4 == 0 && (not (y % 100 == 0) || y % 400 == 0)

unfoldable pub days_in_month : ℕ → ℕ → ℕ
unfolding is_leap
days_in_month y m =
    if m == 2
    then (if is_leap y then 29 else 28)
    else (if m == 4 || m == 6 || m == 9 || m == 11 then 30 else 31)

-- What `time.Parse` accepts as a month and a day.
unfoldable pub is_valid : Date → Bool
is_valid d =
    leb 1 d.month && leb d.month 12 && leb 1 d.day && leb d.day (days_in_month d.year d.month)

-- Months since the year 0.
abbrev pub month_index : Date → ℕ
month_index d = 12 * d.year + (d.month - 1)

-- `loanDueDate`
unfoldable pub loan_due_date : Date → ℕ → Date
loan_due_date start installment_number =
    let first_due_month_offset = if ltb 20 start.day then 2 else 1 in
    let months = (start.month - 1) + (first_due_month_offset + installment_number - 1) in
    record { year = start.year + months / 12; month = months % 12 + 1; day = 20 }
