-- ===== src/Accounting/Types.antt =====
-- The rows of the chart of accounts, the mappings and the journals, and a journal's input
-- (internal/app/accounting.go). Identifiers are texts; `newID()` is an argument where it is called.
use kopdes.Base.{ℕ, ℤ, Bool, List, Option, Result}
use kopdes.Base.Text.{Text}

pub data Side : Type 0 where
  debit credit : Side

pub record CoaAccount : Type 0 where
  pub code : Text
  pub account_type : Text
  pub subtype : Text
  pub system_key : Text
  pub is_group : Bool
  pub active : Bool

pub record AccountingMapping : Type 0 where
  pub id : Text
  pub transaction_type : Text
  pub component : Text
  pub category : Text
  pub loan_type : Text
  pub coa_code : Text
  pub active : Bool
  pub effective_from : Option Text
  pub effective_to : Option Text

-- A row of `financial_journal_lines`.
pub record Line : Type 0 where
  pub side : Side
  pub coa_code : Text
  pub amount : ℕ
  pub component : Text
  pub mapping_override : Bool

pub data JournalStatus : Type 0 where
  pending_mapping posted : JournalStatus

-- A row of `financial_journal_entries` with its lines; `reversal_of` is the entry that it reverses.
pub record Entry : Type 0 where
  pub id : Text
  pub reference_no : Text
  pub transaction_id : Text
  pub transaction_type : Text
  pub transaction_date : Text
  pub source : Text
  pub amount : ℕ
  pub status : JournalStatus
  pub batch_id : Text
  pub description : Text
  pub recorded_by : Text
  pub category : Text
  pub loan_type : Text
  pub reversal_of : Option Text
  pub lines : List Line

pub record Ledger : Type 0 where
  pub accounts : List CoaAccount
  pub mappings : List AccountingMapping
  pub entries : List Entry

-- `accountingJournalComponent`
pub record JournalComponent : Type 0 where
  pub component : Text
  pub side : Text
  pub amount : ℤ

-- `accountingJournalLineInput`
pub record LineInput : Type 0 where
  pub component : Text
  pub side : Text
  pub coa_code : Text
  pub amount : ℤ

-- `accountingJournalInput`
pub record JournalInput : Type 0 where
  pub reference_no : Text
  pub transaction_id : Text
  pub transaction_type : Text
  pub transaction_date : Text
  pub source : Text
  pub amount : ℤ
  pub direction : Text
  pub coa_code : Text
  pub category : Text
  pub loan_type : Text
  pub components : List JournalComponent
  pub lines : List LineInput
  pub coa_overrides : List (Text × Text)
  pub description : Text
  pub recorded_by : Text
  pub batch_id : Text

pub data JournalError : Type 0 where
  invalid_manual_cash_transaction : JournalError
  invalid_accounting_direction : JournalError
  unbalanced_financial_journal : JournalError
  coa_account_not_found coa_account_inactive coa_account_group : JournalError
  journal_not_found journal_not_posted journal_already_reversed invalid_journal_reversal :
      JournalError

abbrev pub Journaled : Type 0 → Type 0
Journaled A = Result JournalError A
