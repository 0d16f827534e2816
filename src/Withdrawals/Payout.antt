-- ===== src/Withdrawals/Payout.antt =====
-- The effect of `disburseWithdrawalRequestByID` (internal/app/withdrawals.go) on the tables.
use kopdes.Base.{
  ◌≡◌, true, false, some, [], ◌∷◌, ◌++◌, ok, arith, inl, inr, Option-cases, Result-cases,
}
use kopdes.Base.Text.{codes, Text, trim_space}
use kopdes.Base.Table.{find, update}
use kopdes.Calendar.Text.{parse_loan_date}
use kopdes.Approval.{bendahara}
use kopdes.Accounting.Journal.{create_financial_journal}
use kopdes.Savings.{withdrawal, sukarela}
use kopdes.Approval.Requests.{User, is_approved, is_some}
use kopdes.Withdrawals.Types.{Db, Request, not_ready_for_disbursement, is_held, key_of_request}
use kopdes.Withdrawals.Decisions.{check_funds}
use kopdes.Withdrawals.Disbursement.{disburse_withdrawal_request, disburse, withdrawal_journal}
use kopdes.Withdrawals.Effects.{IsWithinLimit, check_funds-IsWithinLimit, check_funds-held}

-- The saving record of a disbursement.
abbrev pub IsDebited : Db → Db → Text → Text → User → Request → Type 0
IsDebited db db' record_id date officer r =
    db'.savings
    ≡ db.savings
      ++ record {
        id = record_id;
        member_id = r.member_id;
        saving_type = withdrawal;
        category = sukarela;
        source = codes "bank";
        coa_code = r.proposed_savings_coa_code;
        amount = r.amount;
        record_date = date;
        reference_no = [];
        note = r.note;
        recorded_by = officer.id;
      }
        ∷ []

pub record Disburses (db db' : Db) (id : Text) (officer : User)
    (date description record_id journal_id : Text) (r : Request) : Type 0 where
  pub by : officer.role ≡ bendahara
  pub row : find key_of_request id db.requests ≡ some r
  pub ready : is_approved r.status ≡ true
  pub unpaid : is_some r.disbursement ≡ false
  pub within : IsWithinLimit db r
  pub held : is_held r.reservation.status ≡ true
  pub exact : r.reservation.amount ≡ r.amount
  pub requests :
      db'.requests ≡ update key_of_request id (disburse date officer.id record_id) db.requests
  pub debited : IsDebited db db' record_id date officer r
  pub posted :
      create_financial_journal db.ledger
        (withdrawal_journal r record_id date description officer.id)
        journal_id
      ≡ ok db'.ledger

pub disburse_withdrawal_request-Disburses :
    (db : Db) (id : Text) (officer : User) (date description record_id journal_id : Text) {db' : Db}
    → disburse_withdrawal_request db id officer date description record_id journal_id ≡ ok db'
    → (r : Request) × Disburses db db' id officer
        (trim_space date)
        description
        record_id
        journal_id
        r
unfolding disburse_withdrawal_request
disburse_withdrawal_request-Disburses db id officer date description record_id journal_id {db'} h =
    elim (Option-cases (parse_loan_date (trim_space date))) [
      | inl bad ↦ absurd (ground arith)
      | inr (d, p) ↦ elim (Option-cases (find key_of_request id db.requests)) [
        | inl missing ↦ absurd (ground arith)
        | inr (r, e) ↦
            let funds : check_funds db r not_ready_for_disbursement ≡ ok tt = ground arith in
            elim (Result-cases (
              create_financial_journal db.ledger
                (withdrawal_journal r record_id (trim_space date) description officer.id)
                journal_id)) [
                  | inr (x, bad) ↦ absurd (ground arith)
                  | inl (ledger', done) ↦ (
                    r,
                    record {
                      by = ground arith;
                      row = e;
                      ready = ground arith;
                      unpaid = ground arith;
                      within = check_funds-IsWithinLimit db r not_ready_for_disbursement funds;
                      held = (check_funds-held db r not_ready_for_disbursement funds).0;
                      exact = (check_funds-held db r not_ready_for_disbursement funds).1;
                      requests = ground arith;
                      debited = ground arith;
                      posted = ground arith;
                    },
                  )
                ]
      ]
    ]
