-- ===== src/Withdrawals/Overrides.antt =====
-- `approveWithdrawalRequestBySuperAdmin` and `rejectWithdrawalRequestBySuperAdmin` of
-- internal/app/super_admin_overrides.go.
use kopdes.Base.{true, false, not, ok, ◌>>=◌, ◌>>◌, reject_if, found}
use kopdes.Base.Text.{Text, trim_space}
use kopdes.Base.Table.{find, update}
use kopdes.Approval.Requests.{
  User, is_super_admin, outcome_approved, outcome_rejected, disbursement_ready, is_pending, notify,
}
use kopdes.Withdrawals.Types.{
  Db, Request, Outcome, withdrawal_request_not_found, withdrawal_request_not_pending,
  super_admin_required, key_of_request,
}
use kopdes.Withdrawals.Decisions.{check_funds, decided, approve, reject}

abbrev pub propose : Text → Text → Request → Request
propose cash savings r = record r {
  proposed_cash_coa_code = cash;
  proposed_savings_coa_code = savings;
}

-- `approveWithdrawalRequestBySuperAdmin`, at any stage.
unfoldable pub approve_by_super_admin : Db → Text → User → Text → Text → Outcome Db
approve_by_super_admin db request_id actor coa_code cash_coa_code = do
  r ← found (find key_of_request request_id db.requests) withdrawal_request_not_found
  reject_if (not (is_pending r.status)) withdrawal_request_not_pending
  reject_if (not (is_super_admin actor)) super_admin_required
  check_funds db r withdrawal_request_not_pending
  let after = decided db request_id r.stage actor.id true true
  ok (record after {
    requests =
        update key_of_request request_id
          (λ (q : Request).
            approve actor.id (propose (trim_space cash_coa_code) (trim_space coa_code) q))
          db.requests;
    notices =
        notify request_id disbursement_ready (notify request_id outcome_approved after.notices);
  })

-- `rejectWithdrawalRequestBySuperAdmin`, at any stage; the reason may be empty here.
unfoldable pub reject_by_super_admin : Db → Text → User → Text → Outcome Db
reject_by_super_admin db request_id actor rejection_reason = do
  r ← found (find key_of_request request_id db.requests) withdrawal_request_not_found
  reject_if (not (is_pending r.status)) withdrawal_request_not_pending
  reject_if (not (is_super_admin actor)) super_admin_required
  let after = decided db request_id r.stage actor.id false true
  ok (record after {
    requests =
        update key_of_request request_id (reject actor.id (trim_space rejection_reason))
          db.requests;
    notices = notify request_id outcome_rejected after.notices;
  })
