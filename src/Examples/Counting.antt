-- ===== src/Examples/Counting.antt =====
-- A manual cash transaction, and its reversal.
use kopdes.Base.{arith, ℕ, ◌+◌, ◌<◌, ◌≡◌, refl, true, false, ok, none, some, pos, [], ◌∷◌}
use kopdes.Base.Text.{Text, codes, trim_space, trim_left, trim_right, is_space, text_eq, to_lower}
use kopdes.Base.Table.{find}
use kopdes.Calendar.{Date, is_valid, days_in_month}
use kopdes.Calendar.Text.{parse_loan_date, parse_fields, format_date}
use kopdes.Rupiah.Decimal.{format_int, format_from}
use kopdes.Accounting.Types.{CoaAccount, Entry, Line, Side, debit, credit, posted}
use kopdes.Accounting.Balance.{AllBalanced}
use kopdes.Accounting.Journal.{
  create_financial_journal, write_entry, post_lines, post_line, line_code, entry_row,
}
use kopdes.Accounting.Lines.{
  balanced_lines, journal_lines, check_lines, check_line, read_side, normal_source,
}
use kopdes.Accounting.Mapping.{
  coa_account_for_posting, accounting_mapping_coa_code, best_mapping, applies, prefers,
}
use kopdes.ManualCash.{
  CashTransaction, CashDesk, cash_in, squeeze, normal_name, pad_four, manual_cash_reference_prefix,
  next_free, next_manual_cash_reference, has_reference, set_sequence, sequence_of,
}
use kopdes.ManualCash.Posting.{
  ManualRequest, cash, validate_manual_request, manual_entry, manual_entries, check_category,
  choose_reference, insert_row, insert_manual_cash_transaction,
}
use kopdes.ManualCash.Reversal.{
  ReversalIds, ReversalRequest, line_totals, record_movement, reverse_financial_journal,
}
use kopdes.ManualCash.Reversed.{cash_debits, cash_credits}
use kopdes.ManualCash.Once.{reverse_financial_journal-moves}
use kopdes.ManualCash.Lifecycle.{
  IsReversedOnce, inserted, was_reversed, next, done, Steps-IsReversedOnce,
}
use kopdes.ManualCash.Counted.{IsCounted, insert_manual_cash_transaction-IsCounted}
use kopdes.ManualCash.Referenced.{next_manual_cash_reference-ends}

abbrev account : Text → Text → Text → CoaAccount
account code kind subtype = record {
  code = code;
  account_type = kind;
  subtype = subtype;
  system_key = [];
  is_group = false;
  active = true;
}

abbrev desk : CashDesk
desk = record {
  ledger = record {
    accounts =
        account (codes "1") (codes "asset") (codes "cash")
        ∷ account (codes "4") (codes "income") []
        ∷ [];
    mappings = [];
    entries = [];
  };
  categories = [];
  transactions = [];
  sequences = [];
  audits = [];
}

abbrev request : ManualRequest
request = record {
  category_id = [];
  description = codes " rent  in ";
  record_date = codes "2024-01-05";
  reference_no = [];
  note = [];
  lines =
      record { coa_code = codes "1"; debit = pos 100; credit = pos 0 }
      ∷ record { coa_code = codes "4"; debit = pos 0; credit = pos 100 }
      ∷ [];
}

abbrev today : Date
today = record { year = 2024; month = 2; day = 1 }

abbrev line : Side → Text → Line
line side code = record {
  side = side;
  coa_code = code;
  amount = 100;
  component = codes "manual";
  mapping_override = false;
}

abbrev entry : Entry
entry = record {
  id = codes "j";
  reference_no = codes "KAS-20240105-0001";
  transaction_id = codes "t";
  transaction_type = codes "manual";
  transaction_date = codes "2024-01-05";
  source = codes "bank";
  amount = 100;
  status = posted;
  batch_id = [];
  description = codes "rent in";
  recorded_by = codes "b";
  category = [];
  loan_type = [];
  reversal_of = none;
  lines = line debit (codes "1") ∷ line credit (codes "4") ∷ [];
}

abbrev transaction : CashTransaction
transaction = record {
  id = codes "t";
  transaction_date = codes "2024-01-05";
  direction = cash_in;
  category_id = [];
  description = codes "rent in";
  amount = 100;
  reference_no = codes "KAS-20240105-0001";
  note = [];
  recorded_by = codes "b";
}

abbrev desk_after : CashDesk
desk_after = record desk {
  ledger = record desk.ledger { entries = entry ∷ [] };
  transactions = transaction ∷ [];
  sequences = record { transaction_date = codes "2024-01-05"; next_sequence = 2 } ∷ [];
}

insert_run :
    insert_manual_cash_transaction desk request (codes "b") cash today (codes "t") (codes "j")
    ≡ ok desk_after
unfolding insert_manual_cash_transaction validate_manual_request normal_name squeeze trim_space
    trim_left trim_right is_space to_lower text_eq parse_loan_date parse_fields is_valid
    days_in_month manual_entries manual_entry coa_account_for_posting check_category
    choose_reference next_manual_cash_reference manual_cash_reference_prefix next_free pad_four
    format_date format_int format_from insert_row create_financial_journal balanced_lines
    journal_lines check_lines check_line read_side write_entry post_lines post_line line_code
    entry_row normal_source accounting_mapping_coa_code best_mapping applies prefers find
insert_run = refl

insert_manual_cash_transaction_example : IsCounted desk_after × AllBalanced desk_after.ledger
insert_manual_cash_transaction_example =
    insert_manual_cash_transaction-IsCounted desk request (codes "b") cash today (codes "t")
      (codes "j") insert_run refl (record { counted = refl }, tt)

abbrev reversal_request : ReversalRequest
reversal_request = record { date = codes "2024-01-06"; reason = codes "twice" }

abbrev ids : ReversalIds
ids = record { transaction_id = codes "u"; journal_id = codes "r" }

-- The reversal counts a second `cash_in`, though its lines credit cash.
abbrev reversing_entry : Entry
reversing_entry = record {
  id = codes "r";
  reference_no = codes "KAS-20240106-0001";
  transaction_id = codes "u";
  transaction_type = codes "manual";
  transaction_date = codes "2024-01-06";
  source = codes "bank";
  amount = 100;
  status = posted;
  batch_id = [];
  description = codes "Reversal: rent in";
  recorded_by = codes "b";
  category = [];
  loan_type = [];
  reversal_of = some (codes "j");
  lines =
      record (line credit (codes "1")) { mapping_override = true }
      ∷ record (line debit (codes "4")) { mapping_override = true }
      ∷ [];
}

abbrev desk_reversed : CashDesk
desk_reversed = record {
  ledger = record desk.ledger { entries = entry ∷ reversing_entry ∷ [] };
  categories = [];
  transactions =
      transaction
      ∷ record {
        id = codes "u";
        transaction_date = codes "2024-01-06";
        direction = cash_in;
        category_id = [];
        description = codes "Reversal: rent in";
        amount = 100;
        reference_no = codes "KAS-20240106-0001";
        note = codes "twice";
        recorded_by = codes "b";
      }
      ∷ [];
  sequences =
      record { transaction_date = codes "2024-01-05"; next_sequence = 2 }
      ∷ record { transaction_date = codes "2024-01-06"; next_sequence = 2 }
      ∷ [];
  audits =
      record {
        transaction_id = codes "j";
        transaction_type = codes "manual";
        actor_id = codes "b";
        field_name = codes "reversed_by";
        old_value = [];
        new_value = codes "r";
      }
      ∷ [];
}

reverse_run :
    reverse_financial_journal desk_after
      (codes "j")
      (codes "b")
      reversal_request
      (codes "2024-02-01")
      ids
    ≡ ok desk_reversed
unfolding reverse_financial_journal trim_space trim_left trim_right is_space text_eq find
    parse_loan_date parse_fields is_valid days_in_month line_totals record_movement
    next_manual_cash_reference manual_cash_reference_prefix next_free pad_four format_date
    format_int format_from
reverse_run = refl

reverse_financial_journal-moves_example :
    (r : Entry) × (desk_reversed.ledger.entries ≡ entry ∷ r ∷ [])
    × (200 + 0 + cash_debits desk.ledger.accounts r.lines
        ≡ 100 + 0 + cash_credits desk.ledger.accounts r.lines)
reverse_financial_journal-moves_example =
    reverse_financial_journal-moves desk_after (codes "j") (codes "b") reversal_request
      (codes "2024-02-01") ids reverse_run

Steps-IsReversedOnce_example : IsReversedOnce desk_reversed
Steps-IsReversedOnce_example =
    Steps-IsReversedOnce desk desk_reversed
      (next desk desk_after desk_reversed
        (inserted desk request (codes "b") cash today (codes "t") (codes "j") desk_after insert_run
          refl)
        (next desk_after desk_reversed desk_reversed
          (was_reversed desk_after (codes "j") (codes "b") reversal_request (codes "2024-02-01") ids
            desk_reversed reverse_run)
          (done desk_reversed)))
      (record { at_most_one = λ id. omega arith })

dated : manual_cash_reference_prefix (codes "2024-01-05") ≡ ok (codes "KAS-20240105-")
unfolding manual_cash_reference_prefix parse_loan_date parse_fields is_valid days_in_month
    format_date
dated = refl

next_manual_cash_reference_example :
    (reference : Text) × (next : ℕ) × (next_manual_cash_reference desk_after (codes "2024-01-05")
      ≡ ok (reference, set_sequence (codes "2024-01-05") next desk_after.sequences))
    × (has_reference reference desk_after.transactions ≡ false)
    × (sequence_of (codes "2024-01-05") desk_after.sequences < next)
next_manual_cash_reference_example =
    next_manual_cash_reference-ends desk_after (codes "2024-01-05") (codes "KAS-20240105-") dated
