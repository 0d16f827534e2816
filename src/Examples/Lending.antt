-- ===== src/Examples/Lending.antt =====
-- A loan from the request on.
use kopdes.Base.{add64, mul64, ◌≡◌, refl, true, false, ok, none, some, pos, [], ◌∷◌}
use kopdes.Base.Text.{codes, trim_space, trim_left, trim_right, is_space, text_eq}
use kopdes.Base.Table.{find, update}
use kopdes.Calendar.{is_valid, days_in_month}
use kopdes.Calendar.Text.{parse_loan_date}
use kopdes.Approval.{
  manager, ketua_ii, manager_stage, ketua_ii_stage, next_loan_approval_stage_for_amount,
}
use kopdes.Approval.Requests.{User, NoticeRow, stage_ready}
use kopdes.Savings.{
  SavingRecord, deposit, wajib, saving_summary, category_balance, sum_deposits, sum_withdrawals,
}
use kopdes.Schedule.Fees.{calculate_regular_loan_monthly_admin_fee_v1}
use kopdes.Schedule.Loans.{calculate_regular_loan_schedule}
use kopdes.Repayments.Types.{Books}
use kopdes.LoanRequests.{max_loan_amount_for_member_savings, savings_multiplier}
use kopdes.LoanRequests.Types.{key_of_loan_request, Borrower, Desk, LoanRequest, Proposal, regular}
use kopdes.LoanRequests.Terms.{schedule_terms, check_limit, check_complete}
use kopdes.LoanRequests.Requests.{
  LoanRequestInput, insert_loan_request, validate_loan_request_input, max_loan_duration_for_type,
  check_borrower, new_loan_request,
}
use kopdes.LoanRequests.Decisions.{
  ApproveLoanInput, approve_loan_request, propose_loan, decide_proposed, after_loan_approval,
}
use kopdes.LoanRequests.Backed.{IsBacked, schedule_terms-IsBacked}
use kopdes.LoanRequests.Sound.{IsSoundDesk}
use kopdes.LoanRequests.Lifecycle.{Steps-IsSoundDesk, none_yet, and_then, asked, was_approved}
use kopdes.LoanRequests.Progress.{approved_row, approve_loan_request-goes_through}
use kopdes.Schedule.Terms.{regular_tiered_monthly_v1}

abbrev borrower : Borrower
borrower = record {
  id = codes "m";
  is_active = true;
  deactivation_pending = false;
  member_type = codes "employee";
  bank_name = codes "bank";
  bank_account = codes "1";
}

abbrev saved : SavingRecord
saved = record {
  id = codes "s";
  member_id = codes "m";
  saving_type = deposit;
  category = wajib;
  amount = 1_000_000;
  source = codes "bank";
  coa_code = [];
  record_date = codes "2024-01-02";
  reference_no = [];
  note = [];
  recorded_by = codes "b";
}

abbrev empty_books : Books
empty_books = record {
  loans = [];
  repayments = [];
  audits = [];
  ledger = record { accounts = []; mappings = []; entries = [] };
}

abbrev desk : Desk
desk = record {
  members = borrower ∷ [];
  savings = saved ∷ [];
  requests = [];
  decisions = [];
  notices = [];
  books = empty_books;
}

abbrev wanted : LoanRequestInput
wanted = record {
  requested_amount = pos 1_000_000;
  duration_months = pos 10;
  purpose = codes "roof";
  loan_type = regular;
}

abbrev asked_row : LoanRequest
asked_row = new_loan_request (codes "m") wanted none (codes "member") [] [] (codes "q")

abbrev notice : NoticeRow
notice = record { request_id = codes "q"; notice = stage_ready manager_stage; resolved = false }

abbrev after_asking : Desk
after_asking = record desk { requests = asked_row ∷ []; notices = notice ∷ [] }

insert_run : insert_loan_request desk (codes "m") wanted (codes "q") ≡ ok after_asking
unfolding insert_loan_request validate_loan_request_input max_loan_duration_for_type check_borrower
    find saving_summary category_balance sum_deposits sum_withdrawals text_eq trim_space trim_left
    trim_right is_space max_loan_amount_for_member_savings savings_multiplier add64 mul64
insert_run = refl

abbrev terms : Proposal
terms = record {
  approved_amount = pos 1_000_000;
  duration_months = pos 10;
  start_date = codes "2024-01-05";
  admin_fee_policy = regular_tiered_monthly_v1;
  monthly_admin_fee = some (pos 10_000);
  total_admin_fee = pos 100_000;
  total_obligation = pos 1_100_000;
}

schedule_run : schedule_terms regular none (pos 1_000_000) (pos 10) (codes "2024-01-05") ≡ ok terms
unfolding schedule_terms calculate_regular_loan_schedule parse_loan_date is_valid days_in_month
    calculate_regular_loan_monthly_admin_fee_v1 mul64 add64
schedule_run = refl

schedule_terms_example : IsBacked terms
schedule_terms_example =
    schedule_terms-IsBacked regular none (pos 1_000_000) (pos 10) (codes "2024-01-05") schedule_run

abbrev manages : User
manages = record { id = codes "g"; role = manager; has_member = false }

abbrev input : ApproveLoanInput
input = record {
  approved_amount = pos 1_000_000;
  duration_months = pos 10;
  settle_outstanding_loans = true;
}

abbrev proposed_row : LoanRequest
proposed_row = record asked_row {
  stage = some ketua_ii_stage;
  proposal = some terms;
  settle_outstanding_loans = true;
}

abbrev after_manager : Desk
after_manager = record after_asking {
  requests = proposed_row ∷ [];
  decisions =
      record {
        request_id = codes "q";
        stage = some manager_stage;
        officer_id = codes "g";
        is_approval = true;
        is_override = false;
      }
      ∷ [];
  notices =
      record notice { resolved = true }
      ∷ record { request_id = codes "q"; notice = stage_ready ketua_ii_stage; resolved = false }
      ∷ [];
}

manager_run :
    approve_loan_request after_asking (codes "q") manages input (codes "2024-01-05")
    ≡ ok after_manager
unfolding approve_loan_request propose_loan decide_proposed after_loan_approval check_limit
    check_complete find update text_eq max_loan_amount_for_member_savings savings_multiplier
    saving_summary category_balance add64 mul64 next_loan_approval_stage_for_amount
manager_run = rw schedule_run refl

desk-IsSoundDesk : IsSoundDesk desk
desk-IsSoundDesk = record {
  keyed = tt;
  fit = tt;
  kept = record { keyed = tt; current = tt; paid_in = tt; balanced = tt };
}

Steps_example : IsSoundDesk after_manager
unfolding find
Steps_example =
    Steps-IsSoundDesk
      (and_then (and_then none_yet (asked (codes "m") wanted (codes "q") refl insert_run))
        (was_approved (codes "q") manages input (codes "2024-01-05") manager_run))
      desk-IsSoundDesk

limit_run : check_limit after_manager proposed_row borrower 1_000_000 ≡ ok tt
unfolding check_limit max_loan_amount_for_member_savings savings_multiplier saving_summary
    category_balance add64 mul64 text_eq
limit_run = refl

abbrev second : User
second = record { id = codes "k"; role = ketua_ii; has_member = false }

approval_example :
    (desk' : Desk) × (approve_loan_request after_manager
        (codes "q")
        second
        input
        (codes "2024-01-06")
      ≡ ok desk')
    × (find key_of_loan_request (codes "q") desk'.requests
        ≡ some (
            approved_row
              (next_loan_approval_stage_for_amount ketua_ii_stage 1_000_000)
              (codes "k")
              proposed_row))
unfolding find text_eq
approval_example =
    approve_loan_request-goes_through after_manager (codes "q") second input (codes "2024-01-06")
      proposed_row ketua_ii_stage terms borrower
      (Steps-IsSoundDesk
        (and_then (and_then none_yet (asked (codes "m") wanted (codes "q") refl insert_run))
          (was_approved (codes "q") manages input (codes "2024-01-05") manager_run))
        desk-IsSoundDesk)
      refl refl refl refl refl refl refl refl limit_run
