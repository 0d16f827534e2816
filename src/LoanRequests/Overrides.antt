-- ===== src/LoanRequests/Overrides.antt =====
-- `overrideLoanRequestByID` and `rejectLoanRequestBySuperAdmin` of
-- internal/app/super_admin_overrides.go.
use kopdes.Base.{
  ℤ, pos, ltb_ℤ, equal_ℤ, Bool, true, false, not, ◌&&◌, ◌||◌, if◌then◌else◌, Option, none, some, ok,
  ◌>>=◌, ◌>>◌, reject_if, found, positive,
}
use kopdes.Base.Text.{Text, trim_space}
use kopdes.Base.Table.{find, update}
use kopdes.Approval.Requests.{
  User, outcome_rejected, disbursement_ready, approval_ready, is_pending, is_super_admin, notify,
}
use kopdes.LoanRequests.Types.{
  LoanRequest, Proposal, Desk, Outcome, inactive_loan_member, loan_request_not_found,
  loan_request_not_pending, invalid_loan_approval, super_admin_required, member_not_found,
  key_of_loan_request, key_of_borrower,
}
use kopdes.LoanRequests.Terms.{schedule_terms, check_limit, check_complete, check_terms}
use kopdes.LoanRequests.Decisions.{ApproveLoanInput, decided_loan, approve_loan, reject_loan}

abbrev is_above_zero : ℤ → Bool
is_above_zero z = ltb_ℤ (pos 0) z

-- `if value <= 0 { value = other }`
abbrev or_else : ℤ → ℤ → ℤ
or_else value other = if is_above_zero value then value else other

abbrev proposed : (Proposal → ℤ) → Option Proposal → ℤ
proposed field none = pos 0
proposed field (some p) = field p

-- `req.ApprovedAmount > 0 && req.ApprovedAmount != request.ProposedApprovedAmount`
abbrev contradicts : ℤ → ℤ → Bool
contradicts asked is = is_above_zero asked && not (equal_ℤ asked is)

-- The terms that the request has, which the input may not contradict, or new ones.
unfoldable pub settle_terms : LoanRequest → ApproveLoanInput → ℤ → ℤ → Text → Outcome Proposal
settle_terms r req amount duration today = elim r.proposal [
  | none ↦ schedule_terms r.loan_type r.requested_admin_fee amount duration today
  | some p ↦ do
    reject_if
        (contradicts req.approved_amount p.approved_amount
          || contradicts req.duration_months p.duration_months)
        invalid_loan_approval
    ok p
]

-- From the input, else proposed, else requested.
abbrev pub overridden_amount : LoanRequest → ApproveLoanInput → ℤ
overridden_amount r req =
    or_else req.approved_amount
      (or_else (proposed (λ p. p.approved_amount) r.proposal) r.requested_amount)

abbrev pub overridden_duration : LoanRequest → ApproveLoanInput → ℤ
overridden_duration r req =
    or_else req.duration_months
      (or_else (proposed (λ p. p.duration_months) r.proposal) r.duration_months)

-- The terms that the override approves.
unfoldable pub overridden_terms : Desk → LoanRequest → ApproveLoanInput → Text → Outcome Proposal
overridden_terms desk r req today = do
  let amount = overridden_amount r req
  let duration = overridden_duration r req
  approved ← positive amount invalid_loan_approval
  months ← positive duration invalid_loan_approval
  member ← found (find key_of_borrower r.member_id desk.members) member_not_found
  reject_if (not member.is_active) inactive_loan_member
  check_limit desk r member approved
  p ← settle_terms r req amount duration today
  complete ← check_complete p
  calc ← check_terms p p.start_date
  ok p

-- `overrideLoanRequestByID`, at any stage, with today's date
unfoldable pub override_loan_request : Desk → Text → User → ApproveLoanInput → Text → Outcome Desk
override_loan_request desk request_id actor req today = do
  r ← found (find key_of_loan_request request_id desk.requests) loan_request_not_found
  reject_if (not (is_pending r.status)) loan_request_not_pending
  reject_if (not (is_super_admin actor)) super_admin_required
  p ← overridden_terms desk r req today
  let after = decided_loan desk request_id r.stage actor.id true true
  ok (record after {
    requests =
        update key_of_loan_request request_id
          (λ _. approve_loan actor.id (record r { proposal = some p })) desk.requests;
    notices = notify request_id disbursement_ready (notify request_id approval_ready after.notices);
  })

-- `rejectLoanRequestBySuperAdmin`, at any stage; the reason may be empty here.
unfoldable pub reject_loan_by_super_admin : Desk → Text → User → Text → Outcome Desk
reject_loan_by_super_admin desk request_id actor rejection_reason = do
  r ← found (find key_of_loan_request request_id desk.requests) loan_request_not_found
  reject_if (not (is_pending r.status)) loan_request_not_pending
  reject_if (not (is_super_admin actor)) super_admin_required
  let after = decided_loan desk request_id r.stage actor.id false true
  ok (record after {
    requests =
        update key_of_loan_request request_id (reject_loan actor.id (trim_space rejection_reason))
          desk.requests;
    notices = notify request_id outcome_rejected after.notices;
  })
