-- ===== src/Examples/Deposits.antt =====
-- A deposit, its correction and its removal.
use kopdes.Base.{◌≡◌, refl, ok, none, pos, true, false, List, [], ◌∷◌, ◌++◌}
use kopdes.Base.Text.{Text, codes, trim_space, trim_left, trim_right, is_space, text_eq, to_lower}
use kopdes.Base.Table.{find, update}
use kopdes.Approval.{super_admin, admin}
use kopdes.Approval.Requests.{User}
use kopdes.Authorization.Permissions.{has_permission, is_officer_role}
use kopdes.Calendar.{is_valid, days_in_month}
use kopdes.Calendar.Text.{parse_loan_date, parse_fields}
use kopdes.Rupiah.Decimal.{format_int, format_from}
use kopdes.Accounting.Types.{CoaAccount, Entry, Line, Side, debit, credit, posted}
use kopdes.Accounting.Journal.{
  create_financial_journal, write_entry, post_lines, post_line, line_code, entry_row,
}
use kopdes.Accounting.Lines.{
  balanced_lines, journal_lines, check_lines, check_line, read_side, normal_source,
}
use kopdes.Accounting.Mapping.{
  coa_account_for_posting, accounting_mapping_coa_code, best_mapping, applies, prefers,
}
use kopdes.Accounting.Reversal.{TransactionAudit, reverse_entry, reversal_totals, reversal_entry}
use kopdes.Accounting.Live.{live_sum}
use kopdes.Savings.{SavingRecord, deposit, wajib}
use kopdes.Savings.Records.{SavingDesk, SavingRequest, insert_saving}
use kopdes.Savings.Corrections.{
  SavingCorrection, corrected_saving, replacing_entry, correct_saving, sync_saving_journal,
  reverse_saving_journal,
}
use kopdes.Savings.Removal.{remove_saving, prepare_removal, undo_journal}
use kopdes.Savings.Booked.{IsBooked}
use kopdes.Savings.Lifecycle.{
  none_yet, and_then, was_deposited, was_corrected, was_removed, Steps-IsBooked,
}
use kopdes.Repayments.Corrections.{Fresh}

abbrev account : Text → Text → CoaAccount
account code kind = record {
  code = code;
  account_type = kind;
  subtype = [];
  system_key = [];
  is_group = false;
  active = true;
}

abbrev desk : SavingDesk
desk = record {
  db = record {
    members = record { id = codes "m"; is_active = true; deactivation_pending = false } ∷ [];
    savings = [];
    requests = [];
    decisions = [];
    notices = [];
    ledger = record {
      accounts = account (codes "1") (codes "asset") ∷ account (codes "2") (codes "liability") ∷ [];
      mappings = [];
      entries = [];
    };
  };
  removals = [];
  transaction_audits = [];
}

abbrev request : SavingRequest
request = record {
  member_id = codes "m";
  record_type = [];
  category = codes " wajib";
  coa_code = codes "2";
  cash_coa_code = codes "1";
  amount = pos 100;
  record_date = codes "2024-01-05";
  reference_no = [];
  note = [];
  role = admin;
}

abbrev saved : SavingRecord
saved = record {
  id = codes "d";
  member_id = codes "m";
  saving_type = deposit;
  category = wajib;
  source = codes "bank";
  coa_code = codes "2";
  amount = 100;
  record_date = codes "2024-01-05";
  reference_no = [];
  note = [];
  recorded_by = codes "b";
}

abbrev line : Side → Text → Text → Line
line side code component = record {
  side = side;
  coa_code = code;
  amount = 100;
  component = component;
  mapping_override = true;
}

abbrev entry : Entry
entry = record {
  id = codes "j";
  reference_no = codes "TXN-d";
  transaction_id = codes "d";
  transaction_type = codes "savings";
  transaction_date = codes "2024-01-05";
  source = codes "bank";
  amount = 100;
  status = posted;
  batch_id = [];
  description = codes "Simpanan wajib";
  recorded_by = codes "b";
  category = codes "wajib";
  loan_type = [];
  reversal_of = none;
  lines =
      line debit (codes "1") (codes "cash_bank")
      ∷ line credit (codes "2") (codes "savings_liability")
      ∷ [];
}

abbrev desk_saved : SavingDesk
desk_saved = record desk {
  db = record desk.db {
    savings = saved ∷ [];
    ledger = record desk.db.ledger { entries = entry ∷ [] };
  };
}

deposit_run : insert_saving desk request (codes "b") (codes "d") (codes "j") ≡ ok desk_saved
unfolding insert_saving has_permission is_officer_role trim_space trim_left trim_right is_space
    text_eq find create_financial_journal balanced_lines journal_lines check_lines check_line
    read_side to_lower write_entry post_lines post_line line_code entry_row normal_source
    coa_account_for_posting accounting_mapping_coa_code best_mapping applies prefers
deposit_run = refl

abbrev boss : User
boss = record { id = codes "s"; role = super_admin; has_member = false }

abbrev texts : Text → Text
texts key = codes "Pembalikan"

abbrev input : SavingCorrection
input = record {
  amount = pos 150;
  record_date = codes "2024-01-06";
  reference_no = [];
  note = [];
  reason = codes "typing";
}

abbrev fresh : Fresh
fresh = record { today = codes "2024-03-01"; journal_id = codes "k"; reversal_id = codes "r" }

abbrev after : SavingRecord
after = corrected_saving input 150 saved

abbrev change : Text → Text → Text → TransactionAudit
change field before now = record {
  transaction_id = codes "d";
  transaction_type = codes "savings";
  actor_id = codes "s";
  field_name = field;
  old_value = before;
  new_value = now;
}

abbrev changes : List TransactionAudit
changes =
    change (codes "amount") (codes "100") (codes "150")
    ∷ change (codes "record_date") (codes "2024-01-05") (codes "2024-01-06")
    ∷ change (codes "correction_reason") [] (codes "typing")
    ∷ change (codes "reversed_by") [] (codes "r")
    ∷ []

abbrev replacing : Entry
replacing = replacing_entry texts entry after (codes "s") (codes "k")

abbrev entries_corrected : List Entry
entries_corrected =
    entry
    ∷ reversal_entry entry (codes "2024-03-01") (codes "Pembalikan: ") (codes "s") (codes "r") 100
    ∷ replacing
    ∷ []

abbrev desk_corrected : SavingDesk
desk_corrected = record desk_saved {
  db = record desk_saved.db {
    savings = after ∷ [];
    ledger = record desk.db.ledger { entries = entries_corrected };
  };
  transaction_audits = changes;
}

correct_run : correct_saving desk_saved boss (codes "d") input texts fresh ≡ ok desk_corrected
unfolding correct_saving trim_space trim_left trim_right is_space find update text_eq
    parse_loan_date parse_fields is_valid days_in_month format_int format_from sync_saving_journal
    reverse_saving_journal reverse_entry reversal_totals
correct_run = refl

abbrev later : Fresh
later = record { today = codes "2024-03-02"; journal_id = codes "l"; reversal_id = codes "q" }

abbrev desk_removed : SavingDesk
desk_removed = record desk_corrected {
  db = record desk_corrected.db {
    savings = [];
    ledger = record desk.db.ledger {
      entries =
          entries_corrected
          ++ reversal_entry replacing (codes "2024-03-02") (codes "Pembalikan: ") (codes "s")
              (codes "q") 150
            ∷ [];
    };
  };
  removals =
      record {
        saving = after;
        removed_by = codes "s";
        removal_reason = codes "twice";
        source_journal_id = codes "k";
        reversal_journal_id = codes "q";
      }
      ∷ [];
  transaction_audits =
      changes
      ++ change (codes "reversed_by") [] (codes "q")
        ∷ change (codes "removed") (codes "false") (codes "true")
        ∷ change (codes "removal_reason") [] (codes "twice")
        ∷ [];
}

remove_run :
    remove_saving desk_corrected boss (codes "d") (codes "twice") texts later ≡ ok desk_removed
unfolding remove_saving trim_space trim_left trim_right is_space find text_eq prepare_removal
    undo_journal reverse_saving_journal reverse_entry reversal_totals
remove_run = refl

desk-IsBooked : IsBooked desk.db
unfolding live_sum
desk-IsBooked = record {
  named = tt;
  ordered = record { entered = tt; paired = tt; balanced = tt };
  top = tt;
  mirrored = λ m t. refl;
}

Steps-IsBooked_example : IsBooked desk_removed.db
unfolding find text_eq
Steps-IsBooked_example =
    Steps-IsBooked
      (and_then
        (and_then
          (and_then none_yet (
            was_deposited request (codes "b") (codes "d") (codes "j") deposit_run (record {
              saving = refl;
              transaction = refl;
              journal = record { not_entered = refl; not_reversed = refl };
            })))
          (was_corrected boss (codes "d") input texts fresh correct_run (record {
            reversal = record { not_entered = refl; not_reversed = refl };
            journal = record { not_entered = refl; not_reversed = refl };
            apart = refl;
          })))
        (was_removed boss (codes "d") (codes "twice") texts later remove_run (record {
          reversal = record { not_entered = refl; not_reversed = refl };
          journal = record { not_entered = refl; not_reversed = refl };
          apart = refl;
        })))
      desk-IsBooked
