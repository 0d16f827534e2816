-- ===== src/Examples/Flow.antt =====
-- A withdrawal from the request to the disbursement.
use kopdes.Base.{◌≡◌, refl, true, false, ok, none, some, pos, [], ◌∷◌, arith}
use kopdes.Base.Text.{
  Text, codes, trim_space, trim_left, trim_right, is_space, to_lower, text_eq, text_ltb,
}
use kopdes.Base.Table.{find, update}
use kopdes.Calendar.{is_valid, days_in_month, is_leap}
use kopdes.Calendar.Text.{parse_loan_date, parse_fields}
use kopdes.Approval.{manager, bendahara, super_admin, manager_stage, ketua_ii_stage}
use kopdes.Authorization.Permissions.{has_permission, is_officer_role}
use kopdes.Accounting.Types.{Entry, Line, CoaAccount, debit, credit, posted}
use kopdes.Accounting.Lines.{
  balanced_lines, journal_lines, check_lines, check_line, read_side, normal_source,
}
use kopdes.Accounting.Mapping.{
  accounting_mapping_coa_code, coa_account_for_posting, best_mapping, applies, prefers,
}
use kopdes.Accounting.Journal.{
  create_financial_journal, write_entry, post_lines, post_line, line_code, entry_row,
}
use kopdes.Savings.{
  SavingRecord, deposit, withdrawal, sukarela, saving_summary, category_balance, sum_deposits,
  sum_withdrawals, max_withdrawal_amount_for_sukarela_balance,
  available_withdrawal_amount_for_sukarela_balance,
}
use kopdes.Approval.Requests.{User, NoticeRow, stage_ready, outcome_approved, disbursement_ready}
use kopdes.Withdrawals.Types.{Db, Member, Request}
use kopdes.Withdrawals.Requests.{new_request, insert_withdrawal_request}
use kopdes.Withdrawals.Decisions.{approve, advance, check_funds}
use kopdes.Withdrawals.Disbursement.{disburse, disburse_withdrawal_request}
use kopdes.Withdrawals.Overrides.{approve_by_super_admin, propose}
use kopdes.Withdrawals.Approved.{Approved}
use kopdes.Withdrawals.Sound.{IsSound}
use kopdes.Withdrawals.Lifecycle.{
  Steps, Steps-IsSound, none_yet, and_then, inserted, was_forced, was_disbursed,
}

abbrev saver : Member
saver = record { id = codes "m"; is_active = true; deactivation_pending = false }

abbrev deposited : SavingRecord
deposited = record {
  id = codes "s";
  member_id = codes "m";
  saving_type = deposit;
  category = sukarela;
  amount = 1_000;
  source = codes "bank";
  coa_code = [];
  record_date = codes "2024-01-02";
  reference_no = [];
  note = [];
  recorded_by = codes "b";
}

abbrev account : Text → CoaAccount
account code = record {
  code = code;
  account_type = codes "asset";
  subtype = [];
  system_key = [];
  is_group = false;
  active = true;
}

abbrev at_start : Db
at_start = record {
  members = saver ∷ [];
  savings = deposited ∷ [];
  requests = [];
  decisions = [];
  notices = [];
  ledger = record {
    accounts = account (codes "1") ∷ account (codes "2") ∷ [];
    mappings = [];
    entries = [];
  };
}

abbrev asked : Request
asked = new_request (codes "m") 700 [] (codes "member") (codes "w")

abbrev notice : Text → NoticeRow
notice id = record { request_id = id; notice = stage_ready manager_stage; resolved = false }

abbrev after_request : Db
after_request = record at_start { requests = asked ∷ []; notices = notice (codes "w") ∷ [] }

insert_run :
    insert_withdrawal_request at_start saver (pos 700) [] (codes "member") (codes "w")
    ≡ ok after_request
unfolding insert_withdrawal_request find saving_summary category_balance sum_deposits
    sum_withdrawals text_eq trim_space trim_left trim_right is_space
    max_withdrawal_amount_for_sukarela_balance available_withdrawal_amount_for_sukarela_balance
insert_run = refl

abbrev boss : User
boss = record { id = codes "a"; role = super_admin; has_member = false }

abbrev agreed : Request
agreed = approve (codes "a") (propose (codes "1") (codes "2") asked)

abbrev after_override : Db
after_override = record after_request {
  requests = agreed ∷ [];
  decisions =
      record {
        request_id = codes "w";
        stage = some manager_stage;
        officer_id = codes "a";
        is_approval = true;
        is_override = true;
      }
      ∷ [];
  notices =
      record (notice (codes "w")) { resolved = true }
      ∷ record { request_id = codes "w"; notice = outcome_approved; resolved = false }
      ∷ record { request_id = codes "w"; notice = disbursement_ready; resolved = false }
      ∷ [];
}

override_run :
    approve_by_super_admin after_request (codes "w") boss (codes "2") (codes "1")
    ≡ ok after_override
unfolding approve_by_super_admin check_funds find update saving_summary category_balance
    sum_deposits sum_withdrawals text_eq trim_space trim_left trim_right is_space
    max_withdrawal_amount_for_sukarela_balance
override_run = refl

abbrev treasurer : User
treasurer = record { id = codes "b"; role = bendahara; has_member = false }

abbrev line : Text → Text → Line
line component code = record {
  side = debit;
  coa_code = code;
  amount = 700;
  component = component;
  mapping_override = true;
}

abbrev entry : Entry
entry = record {
  id = codes "j";
  reference_no = codes "TXN-p";
  transaction_id = codes "p";
  transaction_type = codes "withdrawal";
  transaction_date = codes "2024-01-20";
  source = codes "bank";
  amount = 700;
  status = posted;
  batch_id = [];
  description = [];
  recorded_by = codes "b";
  category = codes "sukarela";
  loan_type = [];
  reversal_of = none;
  lines =
      line (codes "savings_liability") (codes "2")
      ∷ record (line (codes "cash_bank") (codes "1")) { side = credit }
      ∷ [];
}

abbrev paid_out : SavingRecord
paid_out = record deposited {
  id = codes "p";
  saving_type = withdrawal;
  coa_code = codes "2";
  amount = 700;
  record_date = codes "2024-01-20";
}

abbrev at_end : Db
at_end = record after_override {
  savings = deposited ∷ paid_out ∷ [];
  requests = disburse (codes "2024-01-20") (codes "b") (codes "p") agreed ∷ [];
  ledger = record at_start.ledger { entries = entry ∷ [] };
}

disburse_run :
    disburse_withdrawal_request after_override
      (codes "w")
      treasurer
      (codes "2024-01-20")
      []
      (codes "p")
      (codes "j")
    ≡ ok at_end
unfolding disburse_withdrawal_request check_funds find update saving_summary category_balance
    sum_deposits sum_withdrawals text_eq trim_space trim_left trim_right is_space
    max_withdrawal_amount_for_sukarela_balance parse_loan_date parse_fields is_valid days_in_month
    is_leap has_permission is_officer_role create_financial_journal balanced_lines journal_lines
    check_lines check_line read_side normal_source write_entry post_lines post_line line_code
    entry_row coa_account_for_posting accounting_mapping_coa_code best_mapping applies prefers
    to_lower text_ltb
disburse_run = refl

at_start-IsSound : IsSound at_start
at_start-IsSound = record { consistent = tt; keyed = tt; covered = λ m. omega arith; balanced = tt }

whole_run : Steps at_start at_end
unfolding find
whole_run =
    and_then
      (and_then
        (and_then none_yet
          (inserted saver (pos 700) [] (codes "member") (codes "w") refl insert_run))
        (was_forced (codes "w") boss (codes "2") (codes "1") override_run))
      (was_disbursed (codes "w") treasurer (codes "2024-01-20") [] (codes "p") (codes "j")
        disburse_run)

Steps-IsSound_example : IsSound at_end
Steps-IsSound_example = Steps-IsSound at_start at_end whole_run at_start-IsSound

abbrev officer : User
officer = record { id = codes "o"; role = manager; has_member = false }

abbrev after_manager : Db
after_manager = record after_request {
  requests = advance manager_stage ketua_ii_stage [] [] asked ∷ [];
  decisions =
      record {
        request_id = codes "w";
        stage = some manager_stage;
        officer_id = codes "o";
        is_approval = true;
        is_override = false;
      }
      ∷ [];
  notices =
      record (notice (codes "w")) { resolved = true }
      ∷ record { request_id = codes "w"; notice = stage_ready ketua_ii_stage; resolved = false }
      ∷ [];
}
