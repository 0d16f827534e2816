-- ===== src/Examples/Journals.antt =====
-- Journals at concrete inputs.
use kopdes.Base.{◌≡◌, refl, true, false, ok, none, pos, [], ◌∷◌}
use kopdes.Base.Text.{
  Text, codes, trim_space, trim_left, trim_right, is_space, to_lower, text_eq, text_ltb,
}
use kopdes.Accounting.Types.{Ledger, Entry, Line, JournalInput, CoaAccount, debit, credit, posted}
use kopdes.Accounting.Lines.{
  balanced_lines, journal_lines, check_lines, check_line, direction_lines, read_side, normal_source,
  source_coa_code,
}
use kopdes.Accounting.Mapping.{
  accounting_mapping_coa_code, coa_account_for_posting, best_mapping, applies, prefers,
}
use kopdes.Accounting.Journal.{
  create_financial_journal, write_entry, post_lines, post_line, line_code, entry_row,
}
use kopdes.Accounting.Balance.{AllBalanced, create_financial_journal-AllBalanced}

abbrev account : Text → CoaAccount
account code = record {
  code = code;
  account_type = codes "asset";
  subtype = [];
  system_key = [];
  is_group = false;
  active = true;
}

abbrev input : JournalInput
input = record {
  reference_no = [];
  transaction_id = codes "t";
  transaction_type = codes "fee";
  transaction_date = codes "2024-01-21";
  source = codes "cash";
  amount = pos 500;
  direction = codes "debit";
  coa_code = codes "4";
  category = [];
  loan_type = [];
  components = [];
  lines = [];
  coa_overrides = [];
  description = [];
  recorded_by = codes "o";
  batch_id = [];
}

abbrev empty_ledger : Ledger
empty_ledger = record {
  accounts = account (codes "CASH") ∷ account (codes "4") ∷ [];
  mappings = [];
  entries = [];
}

abbrev line : Text → Text → Line
line component code = record {
  side = debit;
  coa_code = code;
  amount = 500;
  component = component;
  mapping_override = true;
}

abbrev entry : Entry
entry = record {
  id = codes "j";
  reference_no = codes "TXN-t";
  transaction_id = codes "t";
  transaction_type = codes "fee";
  transaction_date = codes "2024-01-21";
  source = codes "cash";
  amount = 500;
  status = posted;
  batch_id = [];
  description = [];
  recorded_by = codes "o";
  category = [];
  loan_type = [];
  reversal_of = none;
  lines =
      line (codes "source") (codes "CASH")
      ∷ record (line (codes "counterpart") (codes "4")) { side = credit }
      ∷ [];
}

abbrev one_entry : Ledger
one_entry = record empty_ledger { entries = entry ∷ [] }

create_financial_journal_run :
    create_financial_journal empty_ledger input (codes "j") ≡ ok one_entry
unfolding create_financial_journal balanced_lines journal_lines check_lines check_line
    direction_lines read_side normal_source source_coa_code write_entry post_lines post_line
    line_code entry_row coa_account_for_posting accounting_mapping_coa_code best_mapping applies
    prefers trim_space trim_left trim_right is_space to_lower text_eq text_ltb
create_financial_journal_run = refl

create_financial_journal_example : AllBalanced one_entry
create_financial_journal_example =
    create_financial_journal-AllBalanced empty_ledger input (codes "j") create_financial_journal_run
      tt
