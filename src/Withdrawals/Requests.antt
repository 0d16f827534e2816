-- ===== src/Withdrawals/Requests.antt =====
-- Requests: `insertWithdrawalRequestAs`, `updateOfficerWithdrawalRequest` and
-- `cancelWithdrawalRequestByID` of internal/app/withdrawals.go.
use kopdes.Base.{
  ℕ, ltb_ℤ, pos, Bool, not, ◌&&◌, ◌||◌, if◌then◌else◌, ℤ, none, some, [], ◌∷◌, ◌++◌, ok, ◌>>=◌,
  ◌>>◌, reject_if, found, positive, keep, ◌==◌, length,
}
use kopdes.Base.Text.{Text, codes, text_eq, trim_space}
use kopdes.Base.Table.{find, update}
use kopdes.Approval.{manager_stage, at_stage}
use kopdes.Savings.{saving_summary, available_withdrawal_amount_for_sukarela_balance}
use kopdes.Approval.Requests.{
  Decision, pending, cancelled, stage_ready, is_pending, notify, resolve,
}
use kopdes.Withdrawals.Types.{
  Db, Request, Member, active, released, Outcome, invalid_withdrawal_request,
  inactive_withdrawal_member, insufficient_sukarela_balance, withdrawal_request_not_found,
  withdrawal_request_not_pending, member_deactivation_pending, member_not_found, key_of_request,
  key_of_member, is_held, reserved, Reservation,
}

-- The row that is inserted, with its reservation.
abbrev pub new_request : Text → ℕ → Text → Text → Text → Request
new_request member_id amount note creation_source id = record {
  id = id;
  member_id = member_id;
  amount = amount;
  note = note;
  status = pending;
  stage = some manager_stage;
  reviewed_by = none;
  rejection_reason = [];
  proposed_cash_coa_code = [];
  proposed_savings_coa_code = [];
  creation_source = creation_source;
  disbursement = none;
  reservation = record { amount = amount; status = active };
}

-- `insertWithdrawalRequestAs` for a member of the caller's view and the identifier of the new row.
unfoldable pub insert_withdrawal_request : Db → Member → ℤ → Text → Text → Text → Outcome Db
insert_withdrawal_request db member req_amount note creation_source new_id = do
  amount ← positive req_amount invalid_withdrawal_request
  reject_if (not member.is_active) inactive_withdrawal_member
  locked ← found (find key_of_member member.id db.members) member_not_found
  reject_if (not locked.is_active) inactive_withdrawal_member
  reject_if locked.deactivation_pending member_deactivation_pending
  reject_if
      (ltb_ℤ
        (available_withdrawal_amount_for_sukarela_balance
          (saving_summary member.id db.savings).sukarela_balance (reserved member.id db.requests))
        (pos amount))
      insufficient_sukarela_balance
  ok (record db {
    requests =
        db.requests ++ new_request member.id amount (trim_space note) creation_source new_id ∷ [];
    notices = notify new_id (stage_ready manager_stage) db.notices;
  })

-- The new amount of a request and of its reservation, if that is active.
abbrev pub amend : ℕ → Text → Request → Request
amend amount note r = record r {
  amount = amount;
  note = note;
  reservation =
      if is_held r.reservation.status
      then record { amount = amount; status = r.reservation.status }
      else r.reservation;
}

abbrev pub other_than : Text → Request → Bool
other_than id r = not (text_eq r.id id)

-- `updateOfficerWithdrawalRequest`
unfoldable pub update_officer_withdrawal_request : Db → Text → ℤ → Text → Outcome Db
update_officer_withdrawal_request db request_id req_amount note = do
  amount ← positive req_amount invalid_withdrawal_request
  r ← found (find key_of_request request_id db.requests) withdrawal_request_not_found
  reject_if
      (not (text_eq r.creation_source (codes "officer"))
        || not (is_pending r.status)
        || not (at_stage r.stage manager_stage))
      withdrawal_request_not_pending
  reject_if
      (not (
        length (
          keep (λ (d : Decision). text_eq d.request_id request_id && not d.is_override)
            db.decisions)
        == 0))
      withdrawal_request_not_pending
  member ← found (find key_of_member r.member_id db.members) member_not_found
  reject_if (not member.is_active) inactive_withdrawal_member
  reject_if
      (ltb_ℤ
        (available_withdrawal_amount_for_sukarela_balance
          (saving_summary r.member_id db.savings).sukarela_balance
          (reserved r.member_id (keep (other_than request_id) db.requests)))
        (pos amount))
      insufficient_sukarela_balance
  ok (record db {
    requests = update key_of_request request_id (amend amount (trim_space note)) db.requests;
  })

abbrev pub release : Reservation → Reservation
release v = if is_held v.status then record v { status = released } else v

abbrev pub cancel : Request → Request
cancel r = record r { status = cancelled; stage = none; reservation = release r.reservation }

-- `cancelWithdrawalRequestByID`: the member's own request.
unfoldable pub cancel_withdrawal_request : Db → Text → Text → Outcome Db
cancel_withdrawal_request db request_id member_id = do
  r ← found (find key_of_request request_id db.requests) withdrawal_request_not_found
  reject_if (not (text_eq r.member_id member_id)) withdrawal_request_not_found
  reject_if (not (is_pending r.status)) withdrawal_request_not_pending
  ok (record db {
    requests = update key_of_request request_id cancel db.requests;
    notices = resolve request_id db.notices;
  })
