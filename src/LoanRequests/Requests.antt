-- ===== src/LoanRequests/Requests.antt =====
-- New requests and their cancellation: `insertLoanRequest` and `cancelLoanRequestByID` of
-- internal/app/loan_requests.go, `validateLoanRequestInput`, `insertAdminLoanRequestTx` and
-- `cancelAdminLoanRequest` of internal/app/admin_loan_requests.go.
use kopdes.Base.{
  ℕ, ℤ, ltb, not, Bool, true, false, ◌&&◌, ◌||◌, Option, none, some, List, [], ◌∷◌, ◌++◌, ok, ◌>>=◌,
  ◌>>◌, reject_if, found, positive,
}
use kopdes.Base.Text.{Text, codes, text_eq, trim_space, is_empty}
use kopdes.Base.Table.{find, update}
use kopdes.Approval.{manager_stage}
use kopdes.Approval.Requests.{
  User, role_is_super_admin, pending, cancelled, stage_ready, created_by_admin, is_pending, notify,
  resolve,
}
use kopdes.Authorization.Permissions.{has_permission, requests_manage}
use kopdes.Savings.{saving_summary}
use kopdes.Schedule.Terms.{max_regular_loan_duration_months, max_secondary_goods_duration}
use kopdes.LoanRequests.{max_loan_amount_for_member_savings}
use kopdes.LoanRequests.Types.{
  LoanType, regular, secondary_goods, goods_purchase_paylater, voucher, other_type, is_voucher,
  LoanRequest, Borrower, Desk, Outcome, invalid_loan_request, inactive_loan_member,
  pending_loan_request_exists, member_deactivation_pending, member_bank_details_required,
  loan_amount_limit_exceeded, loan_request_not_pending, loan_request_not_found, member_not_found,
  invalid_cancellation, cancel_forbidden, key_of_loan_request, key_of_borrower, is_in_flight,
}

-- `loanRequestInput`, its text of the type read
pub record LoanRequestInput : Type 0 where
  pub requested_amount : ℤ
  pub duration_months : ℤ
  pub purpose : Text
  pub loan_type : LoanType

-- `maxLoanDurationForType`
unfoldable pub max_loan_duration_for_type : LoanType → ℕ
max_loan_duration_for_type regular = max_regular_loan_duration_months
max_loan_duration_for_type secondary_goods = max_secondary_goods_duration
max_loan_duration_for_type goods_purchase_paylater = 1
max_loan_duration_for_type voucher = 1
max_loan_duration_for_type (other_type t) = 0

-- `validateLoanRequestInput`, with the positive amount; a longest duration of 0 admits none.
unfoldable pub validate_loan_request_input : LoanRequestInput → Outcome ℕ
validate_loan_request_input req = do
  amount ← positive req.requested_amount invalid_loan_request
  months ← positive req.duration_months invalid_loan_request
  reject_if (ltb (max_loan_duration_for_type req.loan_type) months) invalid_loan_request
  reject_if (is_empty (trim_space req.purpose)) invalid_loan_request
  ok amount

abbrev pub has_in_flight : Text → List LoanRequest → Bool
has_in_flight member_id [] = false
has_in_flight member_id (r ∷ rest) =
    (text_eq r.member_id member_id && is_in_flight r) || has_in_flight member_id rest

-- The row that is inserted.
abbrev pub new_loan_request :
    Text → LoanRequestInput → Option ℤ → Text → Text → Text → Text → LoanRequest
new_loan_request member_id req fee source created_by batch_id id = record {
  id = id;
  member_id = member_id;
  loan_type = req.loan_type;
  requested_amount = req.requested_amount;
  requested_admin_fee = fee;
  duration_months = req.duration_months;
  purpose = trim_space req.purpose;
  status = pending;
  stage = some manager_stage;
  reviewed_by = none;
  rejection_reason = [];
  creation_source = source;
  created_by = created_by;
  batch_id = batch_id;
  cancellation = none;
  proposal = none;
  settle_outstanding_loans = false;
  loan_payoff_amount = 0;
  disbursement = none;
}

-- What a new request asks of its member.
unfoldable pub check_borrower : Desk → Text → Bool → Outcome Borrower
check_borrower desk member_id needs_bank = do
  member ← found (find key_of_borrower member_id desk.members) member_not_found
  reject_if (not member.is_active) inactive_loan_member
  reject_if member.deactivation_pending member_deactivation_pending
  reject_if
      (needs_bank
        && (is_empty (trim_space member.bank_name) || is_empty (trim_space member.bank_account)))
      member_bank_details_required
  ok member

-- `insertLoanRequest`
unfoldable pub insert_loan_request : Desk → Text → LoanRequestInput → Text → Outcome Desk
insert_loan_request desk member_id req new_id = do
  amount ← validate_loan_request_input req
  reject_if (is_voucher req.loan_type) invalid_loan_request
  member ← check_borrower desk member_id true
  let summary = saving_summary member_id desk.savings
  reject_if
      (ltb
        (max_loan_amount_for_member_savings member.member_type summary.wajib_balance
          summary.sukarela_balance)
        amount)
      loan_amount_limit_exceeded
  reject_if (has_in_flight member_id desk.requests) pending_loan_request_exists
  ok (record desk {
    requests =
        desk.requests ++ new_loan_request member_id req none (codes "member") [] [] new_id ∷ [];
    notices = notify new_id (stage_ready manager_stage) desk.notices;
  })

abbrev pub cancel_loan : LoanRequest → LoanRequest
cancel_loan r = record r { status = cancelled; stage = none }

-- `cancelLoanRequestByID`: the member's own request.
unfoldable pub cancel_loan_request : Desk → Text → Text → Outcome Desk
cancel_loan_request desk request_id member_id = do
  r ← found (find key_of_loan_request request_id desk.requests) loan_request_not_found
  reject_if (not (text_eq r.member_id member_id)) loan_request_not_found
  reject_if (not (is_pending r.status)) loan_request_not_pending
  ok (record desk {
    requests = update key_of_loan_request request_id cancel_loan desk.requests;
    notices = resolve request_id desk.notices;
  })

-- `insertAdminLoanRequestTx`, for a row that was validated.
unfoldable pub insert_admin_loan_request :
    Desk → User → Text → LoanRequestInput → Option ℤ → Text → Text → Outcome Desk
insert_admin_loan_request desk actor member_id req fee batch_id new_id = do
  reject_if (is_voucher req.loan_type && is_empty (trim_space batch_id)) invalid_loan_request
  member ← found (find key_of_borrower member_id desk.members) member_not_found
  reject_if member.deactivation_pending member_deactivation_pending
  ok (record desk {
    requests =
        desk.requests
        ++ new_loan_request member_id req fee (codes "admin") actor.id batch_id new_id ∷ [];
    notices =
        notify new_id created_by_admin (notify new_id (stage_ready manager_stage) desk.notices);
  })

abbrev pub cancel_loan_by : Text → Text → LoanRequest → LoanRequest
cancel_loan_by reason by r = record r {
  status = cancelled;
  stage = none;
  cancellation = some (record { reason = reason; by = by });
}

-- `cancelAdminLoanRequest`: a request that an admin created, by its creator or the super admin.
unfoldable pub cancel_admin_loan_request : Desk → Text → User → Text → Outcome Desk
cancel_admin_loan_request desk request_id actor reason = do
  reject_if (is_empty (trim_space reason)) invalid_cancellation
  r ← found (find key_of_loan_request request_id desk.requests) loan_request_not_found
  reject_if
      (not (text_eq r.creation_source (codes "admin"))
        || (not (role_is_super_admin actor.role)
            && (not (has_permission actor.role requests_manage)
                || not (text_eq r.created_by actor.id))))
      cancel_forbidden
  reject_if (not (is_pending r.status)) loan_request_not_pending
  ok (record desk {
    requests =
        update key_of_loan_request request_id (cancel_loan_by (trim_space reason) actor.id)
          desk.requests;
    notices = resolve request_id desk.notices;
  })
