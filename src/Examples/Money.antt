-- ===== src/Examples/Money.antt =====
-- Amounts, dates, savings and roles at concrete inputs.
use kopdes.Base.{
  ◌≤◌, ◌<◌, ◌≡◌, refl, ◌+◌, true, keep, ok, some, max_int64, pos_part, neg_part, List, [], ◌∷◌,
  arith,
}
use kopdes.Base.Text.{Text, codes, is_digit, trim_space, trim_left, trim_right, is_space}
use kopdes.Calendar.{Date, is_valid, loan_due_date, days_in_month, is_leap, month_index}
use kopdes.Calendar.Text.{parse_loan_date, format_date}
use kopdes.Calendar.RoundTrip.{parse_loan_date-format_date}
use kopdes.Calendar.DueDates.{loan_due_date_lem}
use kopdes.Rupiah.Decimal.{value_of, value_from, format_int}
use kopdes.Rupiah.{
  parse_rupiah_amount, normalize_rupiah_field, strip_rp, amount_digits, valid_groups, split,
  ascii_digits, parse_int,
}
use kopdes.Rupiah.Sound.{parse_rupiah_amount_sound}
use kopdes.Rupiah.RoundTrip.{normalize_rupiah_field_lem}
use kopdes.Savings.{
  SavingRecord, deposit, withdrawal, sukarela, khusus, saving_summary, category_balance,
}
use kopdes.Savings.Summary.{saving_summary_total}
use kopdes.Approval.{bendahara}
use kopdes.Authorization.Permissions.{has, has_permission, permission_set, journals_approve}
use kopdes.Authorization.Duties.{has-permission_set, IsSeparated, has_permission-IsSeparated}

abbrev grouped_amount : Text
grouped_amount = codes "Rp 1.500"

abbrev plain_amount : Text
plain_amount = codes "1500"

parse_rupiah_amount_sound_example :
    (1500 ≡ value_of (keep is_digit grouped_amount)) × (1500 ≤ max_int64)
unfolding parse_rupiah_amount strip_rp amount_digits valid_groups split ascii_digits parse_int
    value_of value_from trim_space trim_left trim_right is_space
parse_rupiah_amount_sound_example = parse_rupiah_amount_sound grouped_amount 1500 refl

normalize_rupiah_field_example :
    (0 < value_of (keep is_digit grouped_amount))
    × (plain_amount ≡ format_int (value_of (keep is_digit grouped_amount)))
    × (parse_rupiah_amount plain_amount ≡ ok (value_of (keep is_digit grouped_amount)))
    × (normalize_rupiah_field plain_amount ≡ ok plain_amount)
unfolding normalize_rupiah_field parse_rupiah_amount strip_rp amount_digits valid_groups split
    ascii_digits parse_int value_of value_from format_int trim_space trim_left trim_right is_space
normalize_rupiah_field_example = normalize_rupiah_field_lem grouped_amount plain_amount refl

abbrev leap_day : Date
leap_day = record { year = 2024; month = 2; day = 29 }

parse_loan_date-format_date_example : parse_loan_date (format_date leap_day) ≡ some leap_day
unfolding is_valid days_in_month is_leap
parse_loan_date-format_date_example = parse_loan_date-format_date leap_day (omega arith) refl

loan_due_date_example :
    ((loan_due_date leap_day 3).day ≡ 20)
    × (is_valid (loan_due_date leap_day 3) ≡ true)
    × (month_index (loan_due_date leap_day 3) ≡ month_index leap_day + 2 + 2)
loan_due_date_example = loan_due_date_lem leap_day 2

has_permission_example : IsSeparated bendahara
has_permission_example = has_permission-IsSeparated bendahara

has-permission_set_example :
    has journals_approve (permission_set bendahara) ≡ has_permission bendahara journals_approve
has-permission_set_example = has-permission_set bendahara journals_approve

abbrev saving : SavingRecord
saving = record {
  id = codes "s";
  member_id = codes "m";
  saving_type = deposit;
  category = khusus;
  amount = 1_000;
  source = codes "bank";
  coa_code = [];
  record_date = codes "2024-01-02";
  reference_no = [];
  note = [];
  recorded_by = codes "b";
}

abbrev savings : List SavingRecord
savings =
    saving ∷ record saving { saving_type = withdrawal; category = sukarela; amount = 300 } ∷ []

saving_summary_total_example :
    let s = saving_summary (codes "m") savings in
    let k = category_balance (codes "m") khusus savings in
    pos_part s.current_balance
      + neg_part s.pokok_balance
      + neg_part s.wajib_balance
      + neg_part s.sukarela_balance
      + neg_part s.shu_balance
      + neg_part k
    ≡ neg_part s.current_balance
      + pos_part s.pokok_balance
      + pos_part s.wajib_balance
      + pos_part s.sukarela_balance
      + pos_part s.shu_balance
      + pos_part k
saving_summary_total_example = saving_summary_total (codes "m") savings
