-- ===== src/Calendar/RoundTrip.antt =====
-- Printing against parsing of loan dates (internal/app/loan_schedule.go).
use kopdes.Base.{ℕ, ◌+◌, ◌-◌, ◌*◌, ◌/◌, ◌<◌, ◌≤◌, ◌≡◌, true, some, arith}
use kopdes.Calendar.{Date, is_valid, days_in_month}
use kopdes.Base.Text.{is_digit}
use kopdes.Calendar.Text.{digit, format_date, parse_fields, parse_loan_date}

is_digit-digit : (n : ℕ) → is_digit (digit n) ≡ true
is_digit-digit n = ground arith

two_digits : (n : ℕ) → n < 100 → (digit (n / 10) - b'0') * 10 + (digit n - b'0') ≡ n
two_digits n h = omega arith

four_digits :
    (n : ℕ)
    → n < 10000
    → (digit (n / 1000) - b'0') * 1000
        + (digit (n / 100) - b'0') * 100
        + (digit (n / 10) - b'0') * 10
        + (digit n - b'0')
      ≡ n
four_digits n h = omega arith

pub days_in_month_le : (y m : ℕ) → days_in_month y m ≤ 31
unfolding days_in_month
days_in_month_le y m = ground arith

-- A date of a four-digit year that the calendar has is read back from its text.
pub parse_loan_date-format_date :
    (d : Date) → d.year < 10000 → is_valid d ≡ true → parse_loan_date (format_date d) ≡ some d
unfolding parse_loan_date format_date
parse_loan_date-format_date d y v =
    simp
      (
        is_digit-digit,
        four_digits d.year y,
        two_digits d.month month_small,
        two_digits d.day day_small,
      )
      (fields v)
  where
    month_small : d.month < 100
    month_small = unfold is_valid in ground arith

    day_small : d.day < 100
    day_small = unfold is_valid in ground (arith, days_in_month_le d.year d.month)

    fields : is_valid d ≡ true → parse_fields d.year d.month d.day ≡ some d
    fields h = unfold parse_fields in rw h
