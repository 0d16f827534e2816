-- ===== src/ManualCash/Reversal.antt =====
-- Reversal of a posted journal: `reverseFinancialJournal` and `reverseFinancialJournalTx` of
-- internal/app/accounting_reports.go.
use kopdes.Base.{
  ℕ, ◌+◌, ◌-◌, ltb, ◌==◌, not, Bool, true, false, ◌||◌, if◌then◌else◌, ℤ, pos, sub_ℕ, equal_ℤ, none,
  some, List, [], ◌∷◌, ◌++◌, map, keep, max_int64, Result, ok, err, ◌>>=◌, ◌>>◌, reject_if, found,
}
use kopdes.Base.Text.{Text, codes, text_eq, is_empty, trim_space, byte_length}
use kopdes.Base.Table.{find}
use kopdes.Calendar.Text.{parse_loan_date}
use kopdes.Approval.Requests.{is_some}
use kopdes.Accounting.Types.{
  debit, credit, CoaAccount, Line, Entry, JournalStatus, posted, pending_mapping,
}
use kopdes.Accounting.Lines.{debit_of, credit_of}
use kopdes.Accounting.Mapping.{account_of}
use kopdes.Accounting.Reversal.{
  key_of_entry, TransactionAudit, is_reversed, reversed_line, has_no_lines,
}
use kopdes.ManualCash.{
  CashTransaction, CashDesk, ManualCashError, is_cash_bank, next_manual_cash_reference,
  direction_of, amount_of,
}

pub data ReversalError : Type 0 where
  invalid_journal_reversal journal_not_found journal_not_posted : ReversalError
  journal_already_reversed : ReversalError
  reference_failed : ManualCashError → ReversalError

abbrev pub Outcome : Type 0 → Type 0
Outcome A = Result ReversalError A

abbrev pub has_account : List CoaAccount → Line → Bool
has_account accounts l = is_some (account_of l.coa_code accounts)

-- `JOIN coa_accounts a ON a.code=l.coa_code`
abbrev pub joined : List CoaAccount → List Line → List Line
joined accounts = keep (has_account accounts)

abbrev pub on_cash_bank : List CoaAccount → Line → Bool
on_cash_bank accounts l = elim (account_of l.coa_code accounts) [
  | none ↦ false
  | some a ↦ is_cash_bank a
]

-- What lines debit and credit on the accounts of cash and banks.
abbrev pub cash_debited : List CoaAccount → Line → ℕ
cash_debited accounts l = if on_cash_bank accounts l then debit_of l.side l.amount else 0

abbrev pub cash_credited : List CoaAccount → Line → ℕ
cash_credited accounts l = if on_cash_bank accounts l then credit_of l.side l.amount else 0

-- The sums of the loop; `cashNet` is the difference of the last two.
pub record Totals : Type 0 where
  pub debits : ℕ
  pub credits : ℕ
  pub cash_debits : ℕ
  pub cash_credits : ℕ

abbrev add_line : List CoaAccount → Totals → Line → Totals
add_line accounts t l = record {
  debits = t.debits + debit_of l.side l.amount;
  credits = t.credits + credit_of l.side l.amount;
  cash_debits = t.cash_debits + cash_debited accounts l;
  cash_credits = t.cash_credits + cash_credited accounts l;
}

unfoldable pub line_totals : List CoaAccount → Totals → List Line → Outcome Totals
line_totals accounts t [] = ok t
line_totals accounts t (l ∷ ls) =
    let so_far : ℕ = elim l.side [ debit ↦ t.debits | credit ↦ t.credits ] in
    let rest : Outcome Totals = line_totals accounts (add_line accounts t l) ls in
    reject_if (l.amount == 0) invalid_journal_reversal
    >> (reject_if (ltb (max_int64 - so_far) l.amount) invalid_journal_reversal >> rest)

-- What `reverseFinancialJournal` reads of the form, and the day that stands for a missing date.
abbrev pub reversal_date : Text → Text → Text
reversal_date date today = if is_empty (trim_space date) then today else trim_space date

-- The identifiers that a call makes.
pub record ReversalIds : Type 0 where
  pub transaction_id : Text
  pub journal_id : Text

pub record ReversalRequest : Type 0 where
  pub date : Text
  pub reason : Text

abbrev referenced {ℓ} : {A : Type ℓ} → Result ManualCashError A → Result ReversalError A
referenced (ok a) = ok a
referenced (err e) = err (reference_failed e)

abbrev is_posted : JournalStatus → Bool
is_posted posted = true
is_posted pending_mapping = false

-- The row of `manual_cash_transactions`, for the movement of the journal that is reversed.
abbrev pub reversal_transaction : Entry → ℤ → Text → Text → Text → Text → Text → CashTransaction
reversal_transaction e net id date reference reason actor_id = record {
  id = id;
  transaction_date = date;
  direction = direction_of net;
  category_id = [];
  description = codes "Reversal: " ++ e.description;
  amount = amount_of net;
  reference_no = reference;
  note = reason;
  recorded_by = actor_id;
}

abbrev pub manual_reversal : Entry → ReversalIds → Text → Text → Text → ℕ → List Line → Entry
manual_reversal e ids date reference actor_id total lines = record {
  id = ids.journal_id;
  reference_no = reference;
  transaction_id = ids.transaction_id;
  transaction_type = codes "manual";
  transaction_date = date;
  source = codes "bank";
  amount = total;
  status = posted;
  batch_id = [];
  description = codes "Reversal: " ++ e.description;
  recorded_by = actor_id;
  category = e.category;
  loan_type = e.loan_type;
  reversal_of = some e.id;
  lines = map reversed_line lines;
}

-- The cash transaction of a reversal, where cash moved; else the journal's own reference.
unfoldable pub record_movement :
    CashDesk → Entry → ℤ → Text → Text → Text → Text → Outcome (CashDesk × Text)
record_movement desk e net id date reason actor_id =
    let moved : Outcome (CashDesk × Text) = (do
      (reference, sequences) ← referenced (next_manual_cash_reference desk date)
      let row = reversal_transaction e net id date reference reason actor_id
      ok (
        record desk { transactions = desk.transactions ++ row ∷ []; sequences = sequences },
        reference,
      )) in
    if equal_ℤ net (pos 0) then ok (desk, codes "REV-" ++ e.reference_no) else moved

-- `reverseFinancialJournal`
unfoldable pub reverse_financial_journal :
    CashDesk → Text → Text → ReversalRequest → Text → ReversalIds → Outcome CashDesk
unfolding line_totals record_movement
reverse_financial_journal desk journal_id actor_id req today ids = do
  let reason = trim_space req.reason
  let date = reversal_date req.date today
  reject_if (is_empty reason || ltb 500 (byte_length reason)) invalid_journal_reversal
  reject_if (not (is_some (parse_loan_date date))) invalid_journal_reversal
  e ← found (find key_of_entry journal_id desk.ledger.entries) journal_not_found
  reject_if (not (is_posted e.status)) journal_not_posted
  reject_if (text_eq e.transaction_type (codes "loan_suspension_fee")) invalid_journal_reversal
  reject_if (is_reversed journal_id desk.ledger.entries) journal_already_reversed
  let accounts = desk.ledger.accounts
  let lines = joined accounts e.lines
  t ←
      line_totals accounts (record { debits = 0; credits = 0; cash_debits = 0; cash_credits = 0 })
        lines
  reject_if (has_no_lines lines || (t.debits == 0 || not (t.debits == t.credits)))
      invalid_journal_reversal
  let net = sub_ℕ t.cash_debits t.cash_credits
  (desk', reference) ← record_movement desk e net ids.transaction_id date reason actor_id
  let row = manual_reversal e ids date reference actor_id t.debits lines
  let audit : TransactionAudit = record {
    transaction_id = journal_id;
    transaction_type = e.transaction_type;
    actor_id = actor_id;
    field_name = codes "reversed_by";
    old_value = [];
    new_value = ids.journal_id;
  }
  ok (record desk' {
    ledger = record desk'.ledger { entries = desk'.ledger.entries ++ row ∷ [] };
    audits = desk'.audits ++ audit ∷ [];
  })
