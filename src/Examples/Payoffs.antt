-- ===== src/Examples/Payoffs.antt =====
-- A loan repaid and paid off in books.
use kopdes.Base.{◌≡◌, refl, true, false, ok, none, some, pos, [], ◌∷◌, arith, inr}
use kopdes.Base.Text.{Text, codes, trim_space, trim_left, trim_right, is_space, text_eq, to_lower}
use kopdes.Base.Table.{find, update}
use kopdes.Approval.{bendahara}
use kopdes.Accounting.Types.{Entry, Line, Side, debit, credit, pending_mapping}
use kopdes.Allocation.{post_payment, update_paid}
use kopdes.Allocation.Poured.{poured}
use kopdes.Accounting.Journal.{
  create_financial_journal, write_entry, post_lines, post_line, line_code, entry_row,
}
use kopdes.Accounting.Lines.{
  balanced_lines, journal_lines, check_lines, check_line, read_side, normal_source,
}
use kopdes.Accounting.Mapping.{accounting_mapping_coa_code, best_mapping, applies, prefers}
use kopdes.Repayments.Types.{paid, Loan, Books, Repayment, active}
use kopdes.Repayments.Posting.{RepaymentInput, record_repayment, pay_loan}
use kopdes.Repayments.Current.{IsCurrent}
use kopdes.Repayments.Kept.{IsKept}
use kopdes.LoanRequests.Types.{LoanRequest, regular}
use kopdes.LoanRequests.Requests.{new_loan_request}
use kopdes.LoanRequests.Disbursement.{Payoff, disburse_books, loans_to_pay_off}
use kopdes.LoanRequests.PaidOut.{PaidOut, disburse_books-PaidOut}
use kopdes.Examples.Repaid.{loan, row, terms, loan-IsCurrent}

abbrev pub received : Repayment
received = record {
  id = codes "p";
  loan_id = codes "l";
  member_id = codes "m";
  source = codes "bank";
  coa_code = [];
  amount = 40;
  record_date = codes "2024-01-20";
  reference_no = [];
  note = [];
  recorded_by = codes "b";
}

abbrev books : Books
books = record {
  loans = loan ∷ [];
  repayments = received ∷ [];
  audits = [];
  ledger = record { accounts = []; mappings = []; entries = [] };
}

books-IsKept : IsKept books
unfolding find text_eq
books-IsKept = record {
  keyed = (refl, tt);
  current = (loan-IsCurrent, tt);
  paid_in = (omega arith, tt);
  balanced = tt;
}

abbrev input : RepaymentInput
input = record {
  amount = pos 60;
  record_date = codes "2024-02-20";
  coa_code = [];
  cash_coa_code = [];
  reference_no = [];
  note = [];
  role = bendahara;
}

abbrev paid_loan : Loan
paid_loan = record loan {
  remaining_balance = 0;
  status = paid;
  next_due_date = none;
  installments =
      record (row 1 33) { paid_amount = 33 }
      ∷ record (row 2 33) { paid_amount = 33 }
      ∷ record (row 3 34) { paid_amount = 34 }
      ∷ [];
}

abbrev line : Side → Text → Line
line side component = record {
  side = side;
  coa_code = [];
  amount = 60;
  component = component;
  mapping_override = false;
}

abbrev entry : Entry
entry = record {
  id = codes "j";
  reference_no = codes "TXN-p2";
  transaction_id = codes "p2";
  transaction_type = codes "repayment";
  transaction_date = codes "2024-02-20";
  source = codes "bank";
  amount = 60;
  status = pending_mapping;
  batch_id = [];
  description = [];
  recorded_by = codes "b";
  category = [];
  loan_type = codes "regular";
  reversal_of = none;
  lines = line debit (codes "cash_bank") ∷ line credit (codes "loan_receivable") ∷ [];
}

abbrev books_after : Books
books_after = record {
  loans = paid_loan ∷ [];
  repayments =
      received
      ∷ record received { id = codes "p2"; amount = 60; record_date = codes "2024-02-20" }
      ∷ [];
  audits = [];
  ledger = record { accounts = []; mappings = []; entries = entry ∷ [] };
}

repayment_run :
    record_repayment books (codes "l") (codes "b") input [] [] (codes "p2") (codes "j")
    ≡ ok books_after
unfolding record_repayment trim_space trim_left trim_right is_space find text_eq pay_loan
    post_payment update_paid create_financial_journal balanced_lines journal_lines check_lines
    check_line read_side to_lower write_entry post_lines post_line line_code
    accounting_mapping_coa_code best_mapping applies prefers update entry_row normal_source
repayment_run = refl

-- The next loan, of the member who asked for the first to be settled.
abbrev next_loan : Loan
next_loan = record {
  id = codes "n";
  terms = terms;
  member_id = codes "m";
  loan_type = codes "regular";
  total_obligation = 70;
  remaining_balance = 70;
  status = active;
  next_due_date = some (record { year = 2024; month = 1; day = 20 });
  installments = row 1 70 ∷ [];
}

next_loan-IsCurrent : IsCurrent next_loan []
unfolding poured
next_loan-IsCurrent = record {
  settled = refl;
  whole = refl;
  numbered = (refl, tt);
  owed = omega arith;
  fits = omega arith;
  balance = refl;
  standing = inr (omega arith, refl, refl);
}

abbrev settling : LoanRequest
settling =
    record (new_loan_request (codes "m")
      (record {
        requested_amount = pos 60;
        duration_months = pos 1;
        purpose = codes "roof";
        loan_type = regular;
      })
      none (codes "member") [] [] (codes "q")) { settle_outstanding_loans = true }

abbrev by : Payoff
by = record {
  request_id = codes "q";
  officer_id = codes "b";
  date = codes "2024-02-20";
  note = [];
  description = [];
  fresh = λ id. (id, id);
}

PaidOut_example :
    PaidOut next_loan
      (loans_to_pay_off settling books.loans)
      (disburse_books books next_loan (codes "j") [] by (loans_to_pay_off settling books.loans))
unfolding find text_eq trim_space trim_left trim_right is_space
PaidOut_example =
    disburse_books-PaidOut books settling next_loan (codes "j") [] by refl books-IsKept (refl, refl)
      next_loan-IsCurrent
