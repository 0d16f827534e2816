-- ===== src/Withdrawals/Disbursement.antt =====
-- `disburseWithdrawalRequestByID` of internal/app/withdrawals.go.
use kopdes.Base.{
  Bool, true, false, not, ◌||◌, pos, some, [], ◌∷◌, ◌++◌, ok, err, ◌>>=◌, ◌>>◌, reject_if, found,
}
use kopdes.Base.Text.{Text, codes, trim_space}
use kopdes.Base.Table.{find, update}
use kopdes.Calendar.Text.{parse_loan_date}
use kopdes.Approval.{Role, bendahara}
use kopdes.Authorization.Permissions.{has_permission, loans_manage}
use kopdes.Accounting.Types.{Ledger, JournalInput, Journaled}
use kopdes.Accounting.Journal.{create_financial_journal}
use kopdes.Savings.{withdrawal, sukarela}
use kopdes.Approval.Requests.{User, is_approved, is_some}
use kopdes.Withdrawals.Types.{
  Db, Request, Reservation, consumed, Outcome, journal_failed, disburser_role,
  invalid_disbursement_date, withdrawal_request_not_found, not_ready_for_disbursement,
  key_of_request,
}
use kopdes.Withdrawals.Decisions.{check_funds}

abbrev is_bendahara : Role → Bool
is_bendahara bendahara = true
is_bendahara _ = false

-- The journal of a withdrawal: the savings liability against cash or bank.
abbrev pub withdrawal_journal : Request → Text → Text → Text → Text → JournalInput
withdrawal_journal r record_id date description officer_id = record {
  reference_no = [];
  transaction_id = record_id;
  transaction_type = codes "withdrawal";
  transaction_date = date;
  source = codes "bank";
  amount = pos r.amount;
  direction = [];
  coa_code = [];
  category = codes "sukarela";
  loan_type = [];
  components =
      record { component = codes "savings_liability"; side = codes "debit"; amount = pos r.amount }
      ∷ record { component = codes "cash_bank"; side = codes "credit"; amount = pos r.amount }
      ∷ [];
  lines = [];
  coa_overrides =
      (codes "cash_bank", r.proposed_cash_coa_code)
      ∷ (codes "savings_liability", r.proposed_savings_coa_code)
      ∷ [];
  description = description;
  recorded_by = officer_id;
  batch_id = [];
}

abbrev pub journaled : Journaled Ledger → Outcome Ledger
journaled (ok ledger) = ok ledger
journaled (err e) = err (journal_failed e)

abbrev pub consume : Reservation → Reservation
consume v = record v { status = consumed }

abbrev pub disburse : Text → Text → Text → Request → Request
disburse date officer_id record_id r = record r {
  disbursement = some (record { date = date; by = officer_id; saving_record_id = record_id });
  reservation = consume r.reservation;
}

-- The identifiers are those of the new saving record and of the new journal.
unfoldable pub disburse_withdrawal_request :
    Db → Text → User → Text → Text → Text → Text → Outcome Db
disburse_withdrawal_request db request_id officer disbursement_date description record_id
      journal_id =
    do
      reject_if (not (is_bendahara officer.role) || not (has_permission officer.role loans_manage))
          disburser_role
      let date_text = trim_space disbursement_date
      date ← found (parse_loan_date date_text) invalid_disbursement_date
      r ← found (find key_of_request request_id db.requests) withdrawal_request_not_found
      reject_if
          (not (is_approved r.status)
            || is_some r.stage
            || not (is_some r.reviewed_by)
            || is_some r.disbursement)
          not_ready_for_disbursement
      check_funds db r not_ready_for_disbursement
      ledger ← journaled (
          create_financial_journal db.ledger
            (withdrawal_journal r record_id date_text description officer.id) journal_id)
      ok (record db {
        savings =
            db.savings
            ++ record {
              id = record_id;
              member_id = r.member_id;
              saving_type = withdrawal;
              category = sukarela;
              source = codes "bank";
              coa_code = r.proposed_savings_coa_code;
              amount = r.amount;
              record_date = date_text;
              reference_no = [];
              note = r.note;
              recorded_by = officer.id;
            }
              ∷ [];
        requests =
            update key_of_request request_id (disburse date_text officer.id record_id) db.requests;
        ledger = ledger;
      })
