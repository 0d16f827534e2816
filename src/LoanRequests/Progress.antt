-- ===== src/LoanRequests/Progress.antt =====
-- Which approvals of a loan request go through (internal/app/loans.go).
use kopdes.Base.{
  ℕ, ◌≡◌, refl, ap, ◌∙◌, true, false, Option, none, some, List, [], ◌∷◌, ok, arith, ℤ, pos_part,
}
use kopdes.Base.Text.{Text, is_empty}
use kopdes.Base.Table.{find, update, find-key, find-update, All-find}
use kopdes.Calendar.Text.{parse_loan_date}
use kopdes.Approval.{
  Stage, approval_stage_for_officer, next_loan_approval_stage_for_amount, at_stage, same_stage,
  manager_stage,
}
use kopdes.Approval.Requests.{
  User, is_pending, notify, stage_ready, disbursement_ready, approval_ready,
}
use kopdes.Schedule.Terms.{LoanScheduleCalculation}
use kopdes.Schedule.Plan.{build_loan_schedule_from_obligation}
use kopdes.Schedule.Checked.{validate_loan_fee_snapshot-IsChecked}
use kopdes.LoanRequests.Types.{
  LoanRequest, Proposal, Borrower, Desk, key_of_loan_request, key_of_borrower,
}
use kopdes.LoanRequests.Terms.{check_complete, check_limit}
use kopdes.Schedule.Terms.{max_duration}
use kopdes.LoanRequests.Decisions.{
  ApproveLoanInput, approve_loan_request, decide_proposed, after_loan_approval, check_approval,
  advance_loan, approve_loan, decided_loan,
}
use kopdes.LoanRequests.Backed.{IsBacked, IsBacked-check_terms_own}
use kopdes.LoanRequests.Invariant.{IsFit, AllBacked, is_late}
use kopdes.LoanRequests.Sound.{IsSoundDesk}

build_loan_schedule-has_date :
    (total duration : ℤ) (start : Text) (longest : ℕ) {s : LoanScheduleCalculation}
    → build_loan_schedule_from_obligation total duration start longest ≡ ok s
    → is_empty start ≡ false
unfolding build_loan_schedule_from_obligation parse_loan_date
build_loan_schedule-has_date total duration [] longest {s} h = absurd (ground arith)
build_loan_schedule-has_date total duration (c ∷ rest) longest {s} h = refl

-- A backed proposal is complete.
IsBacked-check_complete :
    (p : Proposal) → IsBacked p → check_complete p ≡ ok (pos_part p.approved_amount)
unfolding check_complete
IsBacked-check_complete p b =
    let c = validate_loan_fee_snapshot-IsChecked _ _ _ _ _ _ b.snapshot in
    let dated =
      build_loan_schedule-has_date p.total_obligation p.duration_months p.start_date
        (max_duration p.admin_fee_policy) b.rebuilt in
    rw (c.principal_is, c.duration_is, dated, c.obligation_is)
      (ground (arith, c.lent, c.lasts, c.sum_is))

check_approval_passes :
    (desk after : Desk) (r : LoanRequest) (p : Proposal) (amount : ℕ) (member : Borrower)
    → after.members ≡ desk.members
    → after.savings ≡ desk.savings
    → find key_of_borrower r.member_id desk.members ≡ some member
    → member.is_active ≡ true
    → check_limit desk r member amount ≡ ok tt
    → IsBacked p
    → check_approval after r p amount ≡ ok tt
unfolding check_approval check_limit
check_approval_passes desk after r p amount member ms ss row active limit b =
    let (s, checked) = IsBacked-check_terms_own p b in
    rw (ms, ss, row, active, checked) (ground (arith, limit))

-- The row after an approval, by the next stage.
abbrev pub approved_row : Option Stage → Text → LoanRequest → LoanRequest
approved_row (some next) by r = advance_loan next r
approved_row none by r = approve_loan by r

after_loan_approval_passes :
    (desk : Desk) (id : Text) (r : LoanRequest) (p : Proposal) (amount : ℕ) (by : Text)
    (next : Option Stage)
    → check_approval desk r p amount ≡ ok tt
    → (desk' : Desk) × (after_loan_approval desk id r p amount by next ≡ ok desk')
      × (desk'.requests ≡ update key_of_loan_request id (λ _. approved_row next by r) desk.requests)
unfolding after_loan_approval
after_loan_approval_passes desk id r p amount by (some next) h = (
  record desk {
    requests = update key_of_loan_request id (λ _. advance_loan next r) desk.requests;
    notices = notify id (stage_ready next) desk.notices;
  },
  refl,
  refl,
)
after_loan_approval_passes desk id r p amount by none h = (
  record desk {
    requests = update key_of_loan_request id (λ _. approve_loan by r) desk.requests;
    notices = notify id disbursement_ready (notify id approval_ready desk.notices);
  },
  rw h refl,
  refl,
)

is_late-same_stage : (s : Stage) → is_late s ≡ true → same_stage s manager_stage ≡ false
is_late-same_stage s h = ground arith

is_late-at_stage : (s : Stage) → is_late s ≡ true → at_stage (some s) s ≡ true
is_late-at_stage s h = ground arith

-- A late approval decides on the row as it is.
approve_loan_request-decides :
    (desk : Desk) (id : Text) (officer : User) (req : ApproveLoanInput) (today : Text)
    (r : LoanRequest) (stage : Stage) (p : Proposal) (amount : ℕ)
    → find key_of_loan_request id desk.requests ≡ some r
    → is_pending r.status ≡ true
    → r.stage ≡ some stage
    → is_late stage ≡ true
    → approval_stage_for_officer officer.role ≡ stage
    → r.proposal ≡ some p
    → check_complete p ≡ ok amount
    → approve_loan_request desk id officer req today
      ≡ after_loan_approval
          (decided_loan desk id r.stage officer.id true false)
          id
          r
          p
          amount
          officer.id
          (next_loan_approval_stage_for_amount stage amount)
unfolding approve_loan_request decide_proposed
approve_loan_request-decides desk id officer req today r stage p amount row waits at late by terms
      complete =
    rw
      (
        row,
        waits,
        at,
        by,
        is_late-at_stage stage late,
        is_late-same_stage stage late,
        terms,
        complete,
      )
      refl

-- The row that was replaced.
find-update_const :
    (rows : List LoanRequest) (id : Text) (r r' : LoanRequest)
    → find key_of_loan_request id rows ≡ some r
    → r'.id ≡ r.id
    → find key_of_loan_request id (update key_of_loan_request id (λ _. r') rows) ≡ some r'
find-update_const rows id r r' row same =
    find-update key_of_loan_request id (λ _. r') rows row
      (rw same (find-key key_of_loan_request id rows row))

approved_row-id :
    (next : Option Stage) (by : Text) (r : LoanRequest) → (approved_row next by r).id ≡ r.id
approved_row-id (some next) by r = refl
approved_row-id none by r = refl

-- On sound tables, the approval of a pending request by the officer of its stage, later than the
-- manager's, goes through, if the member is active and the proposed amount is within the member's
-- limit: no other check of the code fails. The request moves to the next stage for that amount, or
-- is approved where there is none.
pub approve_loan_request-goes_through :
    (desk : Desk) (id : Text) (officer : User) (req : ApproveLoanInput) (today : Text)
    (r : LoanRequest) (stage : Stage) (p : Proposal) (member : Borrower)
    → IsSoundDesk desk
    → find key_of_loan_request id desk.requests ≡ some r
    → is_pending r.status ≡ true
    → r.stage ≡ some stage
    → is_late stage ≡ true
    → approval_stage_for_officer officer.role ≡ stage
    → r.proposal ≡ some p
    → find key_of_borrower r.member_id desk.members ≡ some member
    → member.is_active ≡ true
    → check_limit desk r member (pos_part p.approved_amount) ≡ ok tt
    → (desk' : Desk) × (approve_loan_request desk id officer req today ≡ ok desk')
      × (find key_of_loan_request id desk'.requests
          ≡ some (
              approved_row
                (next_loan_approval_stage_for_amount stage (pos_part p.approved_amount))
                officer.id
                r))
approve_loan_request-goes_through desk id officer req today r stage p member sound row waits at late
      by terms has_member active limit =
    let fit = All-find key_of_loan_request IsFit id desk.requests row sound.fit in
    let backed : AllBacked (some p) = rw terms at fit.backed in
    let amount = pos_part p.approved_amount in
    let next = next_loan_approval_stage_for_amount stage amount in
    let after = decided_loan desk id r.stage officer.id true false in
    let passes =
      check_approval_passes desk after r p amount member refl refl has_member active limit backed in
    let (desk', done, rows) =
      after_loan_approval_passes after id r p amount officer.id next passes in
    (
      desk',
      approve_loan_request-decides desk id officer req today r stage p amount row waits at late by
            terms (IsBacked-check_complete p backed)
          ∙ done,
      ap (find key_of_loan_request id) rows
          ∙ find-update_const desk.requests id r (approved_row next officer.id r) row
              (approved_row-id next officer.id r),
    )
