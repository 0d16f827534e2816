-- ===== src/ManualCash/Posting.antt =====
-- A manual cash transaction or general journal: `insertManualCashTransactionTx` of
-- internal/app/manual_cash_transactions.go. Its drafts are left out.
use kopdes.Base.{
  ℕ, ◌+◌, ◌-◌, ltb, ◌==◌, not, Bool, true, false, ◌&&◌, ◌||◌, if◌then◌else◌, ℤ, pos, sub_ℕ, equal_ℤ,
  ltb_ℤ, pos_part, Option, none, some, List, [], ◌∷◌, ◌++◌, length, max_int64, ok, ◌>>=◌, ◌>>◌,
  reject_if, found,
}
use kopdes.Base.Text.{Text, codes, text_eq, is_empty, trim_space}
use kopdes.Base.Table.{find}
use kopdes.Calendar.{Date}
use kopdes.Calendar.Text.{parse_loan_date}
use kopdes.Categories.{CashTransactionCategory, key_of_category}
use kopdes.Repayments.StartDate.{is_before}
use kopdes.Accounting.Types.{CoaAccount, Ledger, LineInput, JournalInput}
use kopdes.Accounting.Mapping.{coa_account_for_posting}
use kopdes.Accounting.Journal.{create_financial_journal}
use kopdes.ManualCash.{
  CashDirection, cash_in, cash_out, CashTransaction, CashDesk, Sequence, Outcome, journaled,
  is_cash_bank, normal_name, has_reference, next_manual_cash_reference, direction_of, amount_of,
  invalid_manual_cash_transaction, zero_manual_cash_movement, future_manual_cash_transaction,
  unbalanced_financial_journal, category_not_found, category_inactive, category_group,
  category_direction, duplicate_reference,
}

-- `manualCashJournalLineRequest`
pub record ManualLine : Type 0 where
  pub coa_code : Text
  pub debit : ℤ
  pub credit : ℤ

-- `manualCashTransactionRequest` without the fields that are ignored
pub record ManualRequest : Type 0 where
  pub category_id : Text
  pub description : Text
  pub record_date : Text
  pub reference_no : Text
  pub note : Text
  pub lines : List ManualLine

pub data EntryType : Type 0 where
  cash journal : EntryType

abbrev is_cash : EntryType → Bool
is_cash cash = true
is_cash journal = false

-- `validateManualCashTransactionRequest`
unfoldable pub validate_manual_request : ManualRequest → EntryType → Date → Outcome (Unit {0})
validate_manual_request req entry_type today = do
  reject_if
      (is_empty (normal_name req.description)
        || (is_empty (trim_space req.record_date) || ltb (length req.lines) 2))
      invalid_manual_cash_transaction
  date ← found (parse_loan_date (trim_space req.record_date)) invalid_manual_cash_transaction
  reject_if (is_cash entry_type && is_before today date) future_manual_cash_transaction
  ok tt

-- The sums of the loop.
pub record Sums : Type 0 where
  pub debits : ℕ
  pub credits : ℕ
  pub cash_debits : ℕ
  pub cash_credits : ℕ

abbrev pub is_negative : ℤ → Bool
is_negative z = ltb_ℤ z (pos 0)

abbrev is_zero : ℤ → Bool
is_zero z = equal_ℤ z (pos 0)

abbrev same : Bool → Bool → Bool
same true b = b
same false b = not b

abbrev pub manual_line : Text → Text → ℤ → LineInput
manual_line side code amount = record {
  component = codes "manual";
  side = side;
  coa_code = code;
  amount = amount;
}

abbrev add_debit : Sums → CoaAccount → ℕ → Outcome Sums
add_debit t a n = do
  reject_if (ltb (max_int64 - t.debits) n || (is_cash_bank a && ltb (max_int64 - t.cash_debits) n))
      invalid_manual_cash_transaction
  ok (record t {
    debits = t.debits + n;
    cash_debits = if is_cash_bank a then t.cash_debits + n else t.cash_debits;
  })

abbrev add_credit : Sums → CoaAccount → ℕ → Outcome Sums
add_credit t a n = do
  reject_if
      (ltb (max_int64 - t.credits) n || (is_cash_bank a && ltb (max_int64 - t.cash_credits) n))
      invalid_manual_cash_transaction
  ok (record t {
    credits = t.credits + n;
    cash_credits = if is_cash_bank a then t.cash_credits + n else t.cash_credits;
  })

-- One line: the sums after it, and the line of the journal.
unfoldable pub manual_entry : Ledger → Sums → ManualLine → Outcome (Sums × LineInput)
manual_entry ledger t l = do
  let code = trim_space l.coa_code
  reject_if
      (is_empty code
        || (is_negative l.debit
            || (is_negative l.credit || same (is_zero l.debit) (is_zero l.credit))))
      invalid_manual_cash_transaction
  a ← journaled (coa_account_for_posting ledger code)
  let debited = (do
    t' ← add_debit t a (pos_part l.debit)
    ok (t', manual_line (codes "debit") code l.debit))
  let credited = (do
    t' ← add_credit t a (pos_part l.credit)
    ok (t', manual_line (codes "credit") code l.credit))
  if ltb_ℤ (pos 0) l.debit then debited else credited

-- The loop over the lines.
unfoldable pub manual_entries : Ledger → Sums → List ManualLine → Outcome (Sums × List LineInput)
manual_entries ledger t [] = ok (t, [])
manual_entries ledger t (l ∷ ls) = do
  (t', line) ← manual_entry ledger t l
  (t'', lines) ← manual_entries ledger t' ls
  ok (t'', line ∷ lines)

abbrev direction_text : CashDirection → Text
direction_text cash_in = codes "cash_in"
direction_text cash_out = codes "cash_out"

-- The category of the request, where it names one.
unfoldable pub check_category :
    List CashTransactionCategory → Text → CashDirection → Outcome (Unit {0})
check_category categories category_id direction =
    let checked : Outcome (Unit {0}) = (do
      c ← found (find key_of_category category_id categories) category_not_found
      reject_if (not c.active) category_inactive
      reject_if c.is_group category_group
      reject_if (not (text_eq c.direction (direction_text direction))) category_direction) in
    if is_empty category_id then ok tt else checked

-- The early test of a request with fewer than two lines.
abbrev is_active_group : Option CashTransactionCategory → Bool
is_active_group none = false
is_active_group (some c) = c.active && c.is_group

-- The reference of the request, else the next one.
unfoldable pub choose_reference : CashDesk → ManualRequest → Outcome (Text × List Sequence)
choose_reference desk req =
    let own = trim_space req.reference_no in
    let given = ok (own, desk.sequences) in
    if is_empty own then next_manual_cash_reference desk (trim_space req.record_date) else given

-- The row of a movement.
abbrev pub manual_row : ManualRequest → ℤ → Text → Text → Text → CashTransaction
manual_row req net id reference recorded_by = record {
  id = id;
  transaction_date = trim_space req.record_date;
  direction = direction_of net;
  category_id = trim_space req.category_id;
  description = normal_name req.description;
  amount = amount_of net;
  reference_no = reference;
  note = trim_space req.note;
  recorded_by = recorded_by;
}

-- The row is written where cash moved; references are unique in the table.
unfoldable pub insert_row :
    CashDesk → ManualRequest → ℤ → Text → Text → Text → Outcome (List CashTransaction)
insert_row desk req net id reference recorded_by =
    let inserted =
      reject_if (has_reference reference desk.transactions) duplicate_reference
      >> ok (desk.transactions ++ manual_row req net id reference recorded_by ∷ []) in
    if equal_ℤ net (pos 0) then ok desk.transactions else inserted

-- The journal of the request.
abbrev pub manual_journal : ManualRequest → Text → Text → Text → ℕ → List LineInput → JournalInput
manual_journal req id reference recorded_by total lines = record {
  reference_no = reference;
  transaction_id = id;
  transaction_type = codes "manual";
  transaction_date = trim_space req.record_date;
  source = codes "bank";
  amount = pos total;
  direction = [];
  coa_code = [];
  category = [];
  loan_type = [];
  components = [];
  lines = lines;
  coa_overrides = [];
  description = normal_name req.description;
  recorded_by = recorded_by;
  batch_id = [];
}

-- `insertManualCashTransactionTx`, with the identifiers of the transaction and of its journal.
unfoldable pub insert_manual_cash_transaction :
    CashDesk → ManualRequest → Text → EntryType → Date → Text → Text → Outcome CashDesk
insert_manual_cash_transaction desk req recorded_by entry_type today id journal_id = do
  let category_id = trim_space req.category_id
  reject_if
      (not (is_empty category_id)
        && (ltb (length req.lines) 2
            && is_active_group (find key_of_category category_id desk.categories)))
      category_group
  validate_manual_request req entry_type today
  (t, lines) ←
      manual_entries desk.ledger
        (record { debits = 0; credits = 0; cash_debits = 0; cash_credits = 0 }) req.lines
  reject_if (t.debits == 0 || not (t.debits == t.credits)) unbalanced_financial_journal
  let net = sub_ℕ t.cash_debits t.cash_credits
  reject_if (equal_ℤ net (pos 0) && is_cash entry_type) zero_manual_cash_movement
  check_category desk.categories category_id (direction_of net)
  (reference, sequences) ← choose_reference desk req
  transactions ← insert_row desk req net id reference recorded_by
  ledger ← journaled (
      create_financial_journal desk.ledger
        (manual_journal req id reference recorded_by t.debits lines) journal_id)
  ok (record desk { ledger = ledger; transactions = transactions; sequences = sequences })
