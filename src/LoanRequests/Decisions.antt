-- ===== src/LoanRequests/Decisions.antt =====
-- An officer's decision on a loan request: `approveLoanRequestByID` of internal/app/loans.go and
-- `rejectLoanRequestByID` of internal/app/loan_requests.go.
use kopdes.Base.{
  ℕ, ℤ, ltb, equal_ℤ, Bool, true, false, not, ◌&&◌, ◌||◌, if◌then◌else◌, Option, none, some, List,
  [], ◌∷◌, ◌++◌, ok, ◌>>=◌, ◌>>◌, reject_if, found, positive, sum_of,
}
use kopdes.Base.Text.{Text, codes, text_eq, is_empty, trim_space}
use kopdes.Base.Table.{find, update}
use kopdes.Approval.{
  Stage, manager_stage, at_stage, same_stage, approval_stage_for_officer,
  next_loan_approval_stage_for_amount,
}
use kopdes.Approval.Requests.{
  User, approved, rejected, stage_ready, outcome_rejected, disbursement_ready, approval_ready,
  terms_changed, Notice, is_pending, resolve, notify,
}
use kopdes.Repayments.Types.{Loan, is_running}
use kopdes.LoanRequests.Types.{
  LoanRequest, Proposal, Desk, Outcome, is_regular, inactive_loan_member, loan_request_not_found,
  loan_request_not_pending, invalid_loan_rejection, invalid_loan_approval,
  payoff_exceeds_disbursement, wrong_approval_stage, member_not_found, key_of_loan_request,
  key_of_borrower,
}
use kopdes.LoanRequests.Terms.{schedule_terms, check_limit, check_complete, check_terms}

-- `approveLoanInput`
pub record ApproveLoanInput : Type 0 where
  pub approved_amount : ℤ
  pub duration_months : ℤ
  pub settle_outstanding_loans : Bool

-- `WHERE member_id=$1 AND loan_type='regular' AND status IN (…) AND remaining_balance>0`
abbrev pub is_outstanding : Text → Loan → Bool
is_outstanding member_id l =
    text_eq l.member_id member_id
    && text_eq l.loan_type (codes "regular")
    && is_running l.status
    && ltb 0 l.remaining_balance

-- `COALESCE(SUM(remaining_balance),0)` of them
abbrev pub outstanding : Text → List Loan → ℕ
outstanding member_id =
    sum_of (λ (l : Loan). if is_outstanding member_id l then l.remaining_balance else 0)

-- The manager's terms, proposed on the request.
unfoldable pub propose_loan : Desk → LoanRequest → ApproveLoanInput → Text → Outcome LoanRequest
propose_loan desk r req today = do
  amount ← positive req.approved_amount invalid_loan_approval
  months ← positive req.duration_months invalid_loan_approval
  member ← found (find key_of_borrower r.member_id desk.members) member_not_found
  check_limit desk r member amount
  let settle = req.settle_outstanding_loans && is_regular r.loan_type
  let payoff = if settle then outstanding r.member_id desk.books.loans else 0
  reject_if (ltb amount payoff) payoff_exceeds_disbursement
  p ← schedule_terms r.loan_type r.requested_admin_fee req.approved_amount req.duration_months today
  ok (record r {
    proposal = some p;
    settle_outstanding_loans = settle;
    loan_payoff_amount = payoff;
  })

-- The row of `insertApprovalDecision`, and the request's notifications resolved.
abbrev pub decided_loan : Desk → Text → Option Stage → Text → Bool → Bool → Desk
decided_loan desk request_id stage officer_id is_approval is_override = record desk {
  decisions =
      desk.decisions
      ++ record {
        request_id = request_id;
        stage = stage;
        officer_id = officer_id;
        is_approval = is_approval;
        is_override = is_override;
      }
        ∷ [];
  notices = resolve request_id desk.notices;
}

abbrev pub advance_loan : Stage → LoanRequest → LoanRequest
advance_loan next r = record r { stage = some next }

abbrev pub approve_loan : Text → LoanRequest → LoanRequest
approve_loan officer_id r = record r {
  status = approved;
  stage = none;
  reviewed_by = some officer_id;
}

-- The member is active and the amount within the limit, and the proposed terms hold.
unfoldable pub check_approval : Desk → LoanRequest → Proposal → ℕ → Outcome (Unit {0})
check_approval desk r p amount = do
  member ← found (find key_of_borrower r.member_id desk.members) member_not_found
  reject_if (not member.is_active) inactive_loan_member
  check_limit desk r member amount
  calc ← check_terms p p.start_date
  ok tt

-- After the decision is recorded: on to the next stage, or approved.
unfoldable pub after_loan_approval :
    Desk → Text → LoanRequest → Proposal → ℕ → Text → Option Stage → Outcome Desk
after_loan_approval desk request_id r p amount officer_id (some next) = ok (record desk {
  requests = update key_of_loan_request request_id (λ _. advance_loan next r) desk.requests;
  notices = notify request_id (stage_ready next) desk.notices;
})
after_loan_approval desk request_id r p amount officer_id none = do
  check_approval desk r p amount
  ok (record desk {
    requests = update key_of_loan_request request_id (λ _. approve_loan officer_id r) desk.requests;
    notices = notify request_id disbursement_ready (notify request_id approval_ready desk.notices);
  })

-- The manager approved other terms than the member asked for.
abbrev pub has_changed : LoanRequest → Proposal → Bool
has_changed r p =
    not (equal_ℤ p.approved_amount r.requested_amount)
    || not (equal_ℤ p.duration_months r.duration_months)

abbrev pub notify_if : Bool → Text → Notice → Desk → Desk
notify_if false request_id notice desk = desk
notify_if true request_id notice desk = record desk {
  notices = notify request_id notice desk.notices;
}

-- From the proposed terms on: `r` is the request as it was, and `proposed` with its terms.
unfoldable pub decide_proposed :
    Desk → Text → LoanRequest → User → Stage → LoanRequest → Outcome Desk
decide_proposed desk request_id r officer stage proposed = do
  p ← found proposed.proposal invalid_loan_approval
  amount ← check_complete p
  let after = decided_loan desk request_id r.stage officer.id true false
  let noted =
      notify_if (same_stage stage manager_stage && has_changed r p) request_id terms_changed after
  after_loan_approval noted request_id proposed p amount officer.id
      (next_loan_approval_stage_for_amount stage amount)

-- `approveLoanRequestByID`, with today's date
unfoldable pub approve_loan_request : Desk → Text → User → ApproveLoanInput → Text → Outcome Desk
approve_loan_request desk request_id officer req today = do
  r ← found (find key_of_loan_request request_id desk.requests) loan_request_not_found
  reject_if (not (is_pending r.status)) loan_request_not_pending
  let stage = approval_stage_for_officer officer.role
  reject_if (not (at_stage r.stage stage)) wrong_approval_stage
  proposed ← if same_stage stage manager_stage then propose_loan desk r req today else ok r
  decide_proposed desk request_id r officer stage proposed

abbrev pub reject_loan : Text → Text → LoanRequest → LoanRequest
reject_loan officer_id reason r = record r {
  status = rejected;
  stage = none;
  reviewed_by = some officer_id;
  rejection_reason = reason;
}

-- `rejectLoanRequestByID`
unfoldable pub reject_loan_request : Desk → Text → User → Text → Outcome Desk
reject_loan_request desk request_id officer rejection_reason = do
  let reason = trim_space rejection_reason
  reject_if (is_empty reason) invalid_loan_rejection
  r ← found (find key_of_loan_request request_id desk.requests) loan_request_not_found
  reject_if (not (is_pending r.status)) loan_request_not_pending
  reject_if (not (at_stage r.stage (approval_stage_for_officer officer.role))) wrong_approval_stage
  let after = decided_loan desk request_id r.stage officer.id false false
  ok (record after {
    requests = update key_of_loan_request request_id (reject_loan officer.id reason) desk.requests;
    notices = notify request_id outcome_rejected after.notices;
  })
