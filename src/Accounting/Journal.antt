-- ===== src/Accounting/Journal.antt =====
-- Posting a journal: `createFinancialJournalTx` of internal/app/accounting.go. A call that fails
-- leaves no trace, since its transaction is rolled back.
use kopdes.Base.{
  ℕ, Bool, true, false, not, ◌&&◌, ◌||◌, if◌then◌else◌, Option, none, some, List, [], ◌∷◌, ◌++◌,
  all_of, ok, ◌>>=◌, ◌>>◌, reject_if, positive,
}
use kopdes.Base.Text.{Text, codes, text_eq, trim_space, to_lower, is_empty}
use kopdes.Accounting.Types.{
  Line, LineInput, JournalStatus, pending_mapping, posted, Entry, Ledger, JournalInput, Journaled,
  invalid_manual_cash_transaction,
}
use kopdes.Accounting.Lines.{CheckedLine, normal_source, balanced_lines}
use kopdes.Accounting.Mapping.{MappingKey, coa_account_for_posting, accounting_mapping_coa_code}

-- `input.COAOverrides[component]`, the empty text where the map has no such key.
abbrev pub override_of : Text → List (Text × Text) → Text
override_of component [] = []
override_of component ((c, code) ∷ rest) =
    if text_eq c component then code else override_of component rest

abbrev pub key_of : JournalInput → Text → MappingKey
key_of input component = record {
  transaction_type = to_lower (trim_space input.transaction_type);
  component = component;
  category = to_lower (trim_space input.category);
  loan_type = to_lower (trim_space input.loan_type);
  date = input.transaction_date;
}

abbrev pub is_manual : List LineInput → Bool
is_manual [] = false
is_manual (_ ∷ _) = true

-- The account of a line and whether it overrides the mapping: its own, else the override, else the
-- mapping's.
unfoldable pub line_code : Ledger → JournalInput → CheckedLine → Text × Bool
line_code ledger input l =
    let override = trim_space (override_of l.component input.coa_overrides) in
    let mapped = accounting_mapping_coa_code ledger (key_of input l.component) in
    if not (is_empty l.coa_code)
    then (l.coa_code, not (is_manual input.lines))
    else (if not (is_empty override) then (override, true) else (mapped, false))

unfoldable pub post_line : Ledger → JournalInput → CheckedLine → Journaled Line
post_line ledger input l =
    let (code, override) = line_code ledger input l in
    let line : Line = record {
      side = l.side;
      coa_code = code;
      amount = l.amount;
      component = l.component;
      mapping_override = override;
    } in
    if is_empty code then ok line else (coa_account_for_posting ledger code >>= λ _. ok line)

unfoldable pub post_lines : Ledger → JournalInput → List CheckedLine → Journaled (List Line)
post_lines ledger input [] = ok []
post_lines ledger input (l ∷ ls) = do
  line ← post_line ledger input l
  lines ← post_lines ledger input ls
  ok (line ∷ lines)

-- `SELECT … WHERE transaction_id=$1 AND transaction_type=$2 ORDER BY created_at,id LIMIT 1`; entries
-- stand in the order of their creation.
abbrev pub entry_of : Text → Text → List Entry → Option Entry
entry_of transaction_id transaction_type [] = none
entry_of transaction_id transaction_type (e ∷ rest) =
    if text_eq e.transaction_id transaction_id && text_eq e.transaction_type transaction_type
    then some e
    else entry_of transaction_id transaction_type rest

-- `UPDATE … WHERE id=$10 AND status='pending_mapping'`
abbrev pub replace_entry : Entry → List Entry → List Entry
replace_entry new [] = []
replace_entry new (e ∷ rest) = (if text_eq e.id new.id then new else e) ∷ replace_entry new rest

abbrev pub status_of : List Line → JournalStatus
status_of lines =
    if all_of (λ (l : Line). not (is_empty l.coa_code)) lines then posted else pending_mapping

-- The row that is written, under an identifier, for the checked total and the posted lines.
unfoldable pub entry_row : JournalInput → Text → Option Text → ℕ → List Line → Entry
entry_row input id reversal_of total lines =
    let reference = trim_space input.reference_no in
    record {
      id = id;
      reference_no = if is_empty reference then codes "TXN-" ++ input.transaction_id else reference;
      transaction_id = input.transaction_id;
      transaction_type = to_lower (trim_space input.transaction_type);
      transaction_date = input.transaction_date;
      source = normal_source input.source;
      amount = total;
      status = status_of lines;
      batch_id = trim_space input.batch_id;
      description = trim_space input.description;
      recorded_by = input.recorded_by;
      category = to_lower (trim_space input.category);
      loan_type = to_lower (trim_space input.loan_type);
      reversal_of = reversal_of;
      lines = lines;
    }

-- What follows the lookup of an entry for the same transaction.
unfoldable pub write_entry :
    Ledger → JournalInput → Text → List CheckedLine → ℕ → Option Entry → Journaled Ledger
write_entry ledger input new_id checked total none = do
  lines ← post_lines ledger input checked
  ok (record ledger { entries = ledger.entries ++ entry_row input new_id none total lines ∷ [] })
write_entry ledger input new_id checked total (some e) =
    let rewritten : List Line → Journaled Ledger = λ lines. ok (record ledger {
      entries = replace_entry (entry_row input e.id e.reversal_of total lines) ledger.entries;
    }) in
    elim e.status [
      | posted ↦ ok ledger
      | pending_mapping ↦ post_lines ledger input checked >>= rewritten
    ]

-- `createFinancialJournalTx`
unfoldable pub create_financial_journal : Ledger → JournalInput → Text → Journaled Ledger
create_financial_journal ledger input new_id = do
  amount ← positive input.amount invalid_manual_cash_transaction
  reject_if
      (is_empty (trim_space input.transaction_id)
        || is_empty (trim_space input.transaction_type)
        || is_empty (trim_space input.transaction_date)
        || is_empty (trim_space input.recorded_by))
      invalid_manual_cash_transaction
  (checked, total) ← balanced_lines input
  write_entry ledger input new_id checked total
      (entry_of input.transaction_id (to_lower (trim_space input.transaction_type)) ledger.entries)
