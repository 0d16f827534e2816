-- ===== src/LoanRequests/Disbursement.antt =====
-- `disburseLoanRequestByID` of internal/app/loans.go.
use kopdes.Base.{
  ℕ, pos, ◌+◌, ◌-◌, ltb, Bool, false, not, ◌&&◌, ◌||◌, if◌then◌else◌, Option, none, some, List, [],
  ◌∷◌, ◌++◌, ok, err, ◌>>=◌, ◌>>◌, reject_if, found, positive, keep,
}
use kopdes.Base.Text.{Text, codes, text_eq, trim_space}
use kopdes.Base.Table.{find, update}
use kopdes.Calendar.Text.{parse_loan_date}
use kopdes.Approval.{other_role}
use kopdes.Approval.Requests.{User, outcome_approved, is_approved, is_some, notify, resolve}
use kopdes.Authorization.Permissions.{has_permission, loans_manage}
use kopdes.Schedule.Terms.{LoanScheduleCalculation}
use kopdes.Accounting.Types.{Ledger, Journaled, JournalComponent, JournalInput}
use kopdes.Accounting.Journal.{create_financial_journal}
use kopdes.Repayments.Types.{Loan, Books, RepaymentError, active, first_due, first_amount, last_due}
use kopdes.Repayments.Types as Repaying
use kopdes.Repayments.Posting.{RepaymentInput, record_repayment}
use kopdes.LoanRequests.Types.{
  LoanRequest, Proposal, LoanDisbursement, Desk, Outcome, text_of, is_regular, inactive_loan_member,
  loan_request_not_found, loan_amount_limit_exceeded, not_ready_for_disbursement,
  invalid_calculated, invalid_disbursement_date, payoff_exceeds_disbursement, wrong_approval_stage,
  member_not_found, journal_failed, payoff_failed, key_of_loan_request, key_of_borrower,
}
use kopdes.LoanRequests.Terms.{check_limit, check_terms}
use kopdes.LoanRequests.Decisions.{is_outstanding}

-- `SELECT id FROM loans WHERE loan_request_id=$1`
abbrev pub has_loan : Text → List Loan → Bool
has_loan request_id [] = false
has_loan request_id (l ∷ rest) =
    text_eq l.terms.loan_request_id request_id || has_loan request_id rest

-- The loop over the loans to pay off: their total, each within what is left of the amount.
unfoldable pub take_payoffs : ℕ → ℕ → List Loan → Outcome ℕ
take_payoffs approved total [] = ok total
take_payoffs approved total (l ∷ rest) = do
  reject_if (ltb (approved - total) l.remaining_balance) payoff_exceeds_disbursement
  take_payoffs approved (total + l.remaining_balance) rest

abbrev reviewer : Option Text → Text
reviewer none = []
reviewer (some id) = id

-- What is disbursed.
pub record DisbursableTerms : Type 0 where
  pub proposal : Proposal
  pub amount : ℕ
  pub obligation : ℕ
  pub calc : LoanScheduleCalculation

-- The loan that is created, with its installments.
abbrev pub new_loan : LoanRequest → DisbursableTerms → Text → Text → Loan
new_loan r t date loan_id = record {
  id = loan_id;
  terms = record {
    loan_request_id = r.id;
    approved_amount = t.amount;
    duration_months = t.proposal.duration_months;
    monthly_installment = first_amount t.calc.installments;
    start_date = date;
    admin_fee_policy = t.proposal.admin_fee_policy;
    monthly_admin_fee = t.proposal.monthly_admin_fee;
    total_admin_fee = t.proposal.total_admin_fee;
    final_due_date = last_due t.calc.installments;
    approved_by = reviewer r.reviewed_by;
  };
  member_id = r.member_id;
  loan_type = text_of r.loan_type;
  total_obligation = t.obligation;
  remaining_balance = t.obligation;
  status = active;
  next_due_date = first_due t.calc.installments;
  installments = t.calc.installments;
}

-- The receivable against cash or bank, and against the fee's income where there is a fee.
abbrev pub loan_journal : Loan → Text → Text → Text → JournalInput
loan_journal loan request_id description officer_id =
    let fee = loan.total_obligation - loan.terms.approved_amount in
    let amounts : List JournalComponent =
      record {
        component = codes "loan_receivable";
        side = codes "debit";
        amount = pos loan.total_obligation;
      }
      ∷ record {
        component = codes "cash_bank";
        side = codes "credit";
        amount = pos loan.terms.approved_amount;
      }
      ∷ [] in
    let income : JournalComponent = record {
      component = codes "admin_fee_income";
      side = codes "credit";
      amount = pos fee;
    } in
    record {
      reference_no = request_id;
      transaction_id = loan.id;
      transaction_type = codes "loan";
      transaction_date = loan.terms.start_date;
      source = codes "bank";
      amount = pos loan.total_obligation;
      direction = [];
      coa_code = [];
      category = [];
      loan_type = loan.loan_type;
      components = if ltb 0 fee then amounts ++ income ∷ [] else amounts;
      lines = [];
      coa_overrides = [];
      description = description;
      recorded_by = officer_id;
      batch_id = [];
    }

abbrev journaled_loan : Journaled Ledger → Outcome Ledger
journaled_loan (ok ledger) = ok ledger
journaled_loan (err e) = err (journal_failed e)

abbrev repaid : Repaying.Outcome Books → Outcome Books
repaid (ok books) = ok books
repaid (err e) = err (payoff_failed e)

-- The payment of a whole balance.
abbrev pub payoff_input : Text → Text → Text → Loan → RepaymentInput
payoff_input request_id date note l = record {
  amount = pos l.remaining_balance;
  record_date = date;
  coa_code = [];
  cash_coa_code = [];
  reference_no = codes "PELUNASAN-" ++ request_id ++ codes "-" ++ l.id;
  note = note;
  role = other_role [];
}

-- What the payoffs share; `fresh` gives the identifiers of a repayment and of its journal.
pub record Payoff : Type 0 where
  pub request_id : Text
  pub officer_id : Text
  pub date : Text
  pub note : Text
  pub description : Text
  pub fresh : Text → Text × Text

-- The loop over the loans to pay off.
unfoldable pub pay_off : Books → Payoff → List Loan → Outcome Books
pay_off books by [] = ok books
pay_off books by (l ∷ rest) = do
  books' ← repaid (
      record_repayment books l.id by.officer_id (payoff_input by.request_id by.date by.note l) []
        by.description (by.fresh l.id).0 (by.fresh l.id).1)
  pay_off books' by rest

abbrev pub disburse_loan : LoanDisbursement → Bool → ℕ → LoanRequest → LoanRequest
disburse_loan disbursement settle total r = record r {
  disbursement = some disbursement;
  settle_outstanding_loans = settle;
  loan_payoff_amount = total;
}

abbrev pub is_settling : LoanRequest → Bool
is_settling r = r.settle_outstanding_loans && is_regular r.loan_type

-- The loans that a disbursement pays off, oldest first.
abbrev pub loans_to_pay_off : LoanRequest → List Loan → List Loan
loans_to_pay_off r loans = if is_settling r then keep (is_outstanding r.member_id) loans else []

-- The loan, its journal and the payoffs.
unfoldable pub disburse_books : Books → Loan → Text → Text → Payoff → List Loan → Outcome Books
disburse_books books loan journal_id description by chosen = do
  ledger ← journaled_loan (
      create_financial_journal books.ledger
        (loan_journal loan by.request_id description by.officer_id) journal_id)
  pay_off (record books { loans = books.loans ++ loan ∷ []; ledger = ledger }) by chosen

-- The guards on the request and its member, and its terms for the date of the disbursement.
unfoldable pub disbursable_terms : Desk → LoanRequest → Text → Outcome DisbursableTerms
disbursable_terms desk r date = do
  reject_if
      (not (is_approved r.status)
        || is_some r.stage
        || is_some r.disbursement
        || not (is_some r.reviewed_by))
      not_ready_for_disbursement
  member ← found (find key_of_borrower r.member_id desk.members) member_not_found
  reject_if (not member.is_active) inactive_loan_member
  p ← found r.proposal loan_amount_limit_exceeded
  amount ← positive p.approved_amount loan_amount_limit_exceeded
  check_limit desk r member amount
  months ← positive p.duration_months not_ready_for_disbursement
  obligation ← positive p.total_obligation not_ready_for_disbursement
  calc ← check_terms p date
  ok (record { proposal = p; amount = amount; obligation = obligation; calc = calc })

-- `disburseLoanRequestByID`
unfoldable pub disburse_loan_request :
    Desk
    → Text
    → User
    → Text
    → Text
    → Text
    → Text
    → Text
    → Text
    → (Text → Text × Text)
    → Outcome Desk
disburse_loan_request desk request_id officer disbursement_date description payoff_note
      payoff_description loan_id journal_id fresh =
    do
      reject_if (not (has_permission officer.role loans_manage)) wrong_approval_stage
      let date = trim_space disbursement_date
      day ← found (parse_loan_date date) invalid_disbursement_date
      r ← found (find key_of_loan_request request_id desk.requests) loan_request_not_found
      t ← disbursable_terms desk r date
      reject_if (has_loan request_id desk.books.loans) not_ready_for_disbursement
      let chosen = loans_to_pay_off r desk.books.loans
      total ← take_payoffs t.amount 0 chosen
      reject_if (ltb t.obligation t.amount) invalid_calculated
      let loan = new_loan r t date loan_id
      let by : Payoff = record {
        request_id = request_id;
        officer_id = officer.id;
        date = date;
        note = payoff_note;
        description = payoff_description;
        fresh = fresh;
      }
      books ← disburse_books desk.books loan journal_id description by chosen
      let details : LoanDisbursement = record { date = date; by = officer.id }
      ok (record desk {
        requests =
            update key_of_loan_request request_id (disburse_loan details (is_settling r) total)
              desk.requests;
        notices = notify request_id outcome_approved (resolve request_id desk.notices);
        books = books;
      })
