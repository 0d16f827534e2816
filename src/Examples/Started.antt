-- ===== src/Examples/Started.antt =====
-- A voucher loan whose start date is corrected.
use kopdes.Base.{false, none, some, pos, [], ◌∷◌}
use kopdes.Base.Text.{Text, codes}
use kopdes.Schedule.Terms.{voucher_nominal_one_time_v1}
use kopdes.Repayments.Types.{Loan, LoanTerms, Books, active}
use kopdes.Repayments.StartDate.{StartDateFacts, StartDateAudit}
use kopdes.Examples.Repaid.{row}

abbrev terms : Text → LoanTerms
terms start = record {
  loan_request_id = codes "q";
  approved_amount = 90;
  duration_months = pos 1;
  monthly_installment = 100;
  start_date = start;
  admin_fee_policy = voucher_nominal_one_time_v1;
  monthly_admin_fee = none;
  total_admin_fee = pos 10;
  final_due_date = some (record { year = 2024; month = 1; day = 20 });
  approved_by = codes "k";
}

abbrev voucher_loan : Loan
voucher_loan = record {
  id = codes "v";
  terms = terms (codes "2023-12-05");
  member_id = codes "m";
  loan_type = codes "voucher";
  total_obligation = 100;
  remaining_balance = 100;
  status = active;
  next_due_date = some (record { year = 2024; month = 1; day = 20 });
  installments = row 1 100 ∷ [];
}

abbrev voucher_books : Books
voucher_books = record {
  loans = voucher_loan ∷ [];
  repayments = [];
  audits = [];
  ledger = record { accounts = []; mappings = []; entries = [] };
}

abbrev facts : StartDateFacts
facts = record {
  today = record { year = 2024; month = 1; day = 10 };
  is_suspended = false;
  legacy_terms = false;
  requested_on = record { year = 2023; month = 12; day = 1 };
}

abbrev restarted : Books
restarted = record voucher_books {
  loans = record voucher_loan { terms = terms (codes "2023-12-07") } ∷ [];
}

abbrev audit : StartDateAudit
audit = record {
  loan_id = codes "v";
  old_start_date = codes "2023-12-05";
  new_start_date = codes "2023-12-07";
  changed_by = codes "b";
}
