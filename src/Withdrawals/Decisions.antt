-- ===== src/Withdrawals/Decisions.antt =====
-- An officer's decision: `approveWithdrawalRequestByID` and `rejectWithdrawalRequestByID` of
-- internal/app/withdrawals.go.
use kopdes.Base.{
  ltb, Bool, true, false, not, ◌&&◌, ◌||◌, if◌then◌else◌, Option, none, some, [], ◌∷◌, ◌++◌, ok,
  ◌>>=◌, ◌>>◌, reject_if, found, ◌==◌,
}
use kopdes.Base.Text.{Text, is_empty, trim_space}
use kopdes.Base.Table.{find, update}
use kopdes.Approval.{
  Stage, manager_stage, ketua_i_stage, at_stage, same_stage, approval_stage_for_officer,
  next_withdrawal_approval_stage,
}
use kopdes.Authorization.Permissions.{has_permission, accounting_coa_override}
use kopdes.Savings.{saving_summary, max_withdrawal_amount_for_sukarela_balance}
use kopdes.Approval.Requests.{
  User, approved, rejected, stage_ready, outcome_approved, outcome_rejected, disbursement_ready,
  is_pending, resolve, notify,
}
use kopdes.Withdrawals.Types.{
  Db, Request, Outcome, WithdrawalError, inactive_withdrawal_member, insufficient_sukarela_balance,
  withdrawal_request_not_found, withdrawal_request_not_pending, invalid_withdrawal_rejection,
  coa_override_forbidden, wrong_approval_stage, member_not_found, key_of_request, key_of_member,
  is_held,
}
use kopdes.Withdrawals.Requests.{release}

-- The guards that approval and disbursement share: the member is active, the amount is within the
-- limit, and the reservation still holds it.
unfoldable pub check_funds : Db → Request → WithdrawalError → Outcome (Unit {0})
check_funds db r conflict = do
  member ← found (find key_of_member r.member_id db.members) member_not_found
  reject_if (not member.is_active) inactive_withdrawal_member
  reject_if
      (ltb
        (max_withdrawal_amount_for_sukarela_balance
          (saving_summary r.member_id db.savings).sukarela_balance)
        r.amount)
      insufficient_sukarela_balance
  reject_if (not (is_held r.reservation.status) || not (r.reservation.amount == r.amount)) conflict

-- The request moved to the next stage; the manager's accounts are proposed.
abbrev pub advance : Stage → Stage → Text → Text → Request → Request
advance stage next cash savings r =
    let from_manager = same_stage stage manager_stage in
    record r {
      stage = some next;
      proposed_cash_coa_code = if from_manager then cash else r.proposed_cash_coa_code;
      proposed_savings_coa_code = if from_manager then savings else r.proposed_savings_coa_code;
    }

abbrev pub approve : Text → Request → Request
approve officer_id r = record r { status = approved; stage = none; reviewed_by = some officer_id }

-- The row of `insertApprovalDecision`, and the request's notifications resolved.
abbrev pub decided : Db → Text → Option Stage → Text → Bool → Bool → Db
decided db request_id stage officer_id is_approval is_override = record db {
  decisions =
      db.decisions
      ++ record {
        request_id = request_id;
        stage = stage;
        officer_id = officer_id;
        is_approval = is_approval;
        is_override = is_override;
      }
        ∷ [];
  notices = resolve request_id db.notices;
}

-- After the decision is recorded: on to the next stage, or approved.
unfoldable pub after_approval :
    Db → Text → Request → User → Stage → Text → Text → Option Stage → Outcome Db
after_approval db request_id r officer stage cash savings (some next) = ok (record db {
  requests = update key_of_request request_id (advance stage next cash savings) db.requests;
  notices = notify request_id (stage_ready next) db.notices;
})
after_approval db request_id r officer stage cash savings none = do
  check_funds db r withdrawal_request_not_pending
  reject_if (not (at_stage r.stage ketua_i_stage)) withdrawal_request_not_pending
  ok (record db {
    requests = update key_of_request request_id (approve officer.id) db.requests;
    notices = notify request_id disbursement_ready (notify request_id outcome_approved db.notices);
  })

-- `approveWithdrawalRequestByID`
unfoldable pub approve_withdrawal_request : Db → Text → User → Text → Text → Outcome Db
approve_withdrawal_request db request_id officer coa_code cash_coa_code = do
  reject_if
      ((not (is_empty (trim_space coa_code)) || not (is_empty (trim_space cash_coa_code)))
        && not (has_permission officer.role accounting_coa_override))
      coa_override_forbidden
  r ← found (find key_of_request request_id db.requests) withdrawal_request_not_found
  reject_if (not (is_pending r.status)) withdrawal_request_not_pending
  let stage = approval_stage_for_officer officer.role
  reject_if (not (at_stage r.stage stage)) wrong_approval_stage
  after_approval (decided db request_id r.stage officer.id true false) request_id r officer stage
      (trim_space cash_coa_code) (trim_space coa_code) (next_withdrawal_approval_stage stage)

abbrev pub reject : Text → Text → Request → Request
reject officer_id reason r = record r {
  status = rejected;
  stage = none;
  reviewed_by = some officer_id;
  rejection_reason = reason;
  reservation = release r.reservation;
}

-- `rejectWithdrawalRequestByID`
unfoldable pub reject_withdrawal_request : Db → Text → User → Text → Outcome Db
reject_withdrawal_request db request_id officer rejection_reason = do
  let reason = trim_space rejection_reason
  reject_if (is_empty reason) invalid_withdrawal_rejection
  r ← found (find key_of_request request_id db.requests) withdrawal_request_not_found
  reject_if (not (is_pending r.status)) withdrawal_request_not_pending
  reject_if (not (at_stage r.stage (approval_stage_for_officer officer.role))) wrong_approval_stage
  let after = decided db request_id r.stage officer.id false false
  ok (record after {
    requests = update key_of_request request_id (reject officer.id reason) db.requests;
    notices = notify request_id outcome_rejected after.notices;
  })
