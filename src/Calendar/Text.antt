-- ===== src/Calendar/Text.antt =====
-- `parseLoanDate` and the layout "2006-01-02" of internal/app/loan_schedule.go, over code points.
use kopdes.Base.{
  ℕ, ◌+◌, ◌-◌, ◌*◌, ◌/◌, ◌%◌, ◌&&◌, ◌==◌, if◌then◌else◌, Option, none, some, [], ◌∷◌, all_of,
}
use kopdes.Base.Text.{Text, is_digit}
use kopdes.Calendar.{Date, is_valid}

abbrev pub digit : ℕ → ℕ
digit n = b'0' + n % 10

-- `date.Format("2006-01-02")` for the years 0 to 9999, which are those that parse.
unfoldable pub format_date : Date → Text
format_date d =
    digit (d.year / 1000)
    ∷ digit (d.year / 100)
    ∷ digit (d.year / 10)
    ∷ digit d.year
    ∷ b'-'
    ∷ digit (d.month / 10)
    ∷ digit d.month
    ∷ b'-'
    ∷ digit (d.day / 10)
    ∷ digit d.day
    ∷ []

unfoldable pub parse_fields : (y m d : ℕ) → Option Date
parse_fields y m d =
    let date : Date = record { year = y; month = m; day = d } in
    if is_valid date then some date else none

-- `time.ParseInLocation` together with the comparison of `date.Format` with the text, which leaves
-- four digits, two and two with a dash between them.
unfoldable pub parse_loan_date : Text → Option Date
unfolding parse_fields
parse_loan_date (a ∷ b ∷ c ∷ d ∷ s ∷ m ∷ n ∷ t ∷ e ∷ f ∷ []) =
    if all_of is_digit (a ∷ b ∷ c ∷ d ∷ m ∷ n ∷ e ∷ f ∷ []) && s == b'-' && t == b'-'
    then parse_fields ((a - b'0') * 1000 + (b - b'0') * 100 + (c - b'0') * 10 + (d - b'0'))
        ((m - b'0') * 10 + (n - b'0')) ((e - b'0') * 10 + (f - b'0'))
    else none
parse_loan_date _ = none
