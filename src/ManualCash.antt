-- ===== src/ManualCash.antt =====
-- Manual cash transactions and general journals: the tables of
-- internal/app/manual_cash_transactions.go, with the reference numbers that it gives out.
pub mod Posting
pub mod Reversal
pub mod Reversed
pub mod Once
pub mod Moved
pub mod Counted
pub mod Lifecycle
pub mod Referenced
use kopdes.Base.{
  ℕ, zero, suc, ◌+◌, Bool, true, false, ◌&&◌, ◌||◌, if◌then◌else◌, ℤ, pos, negsuc, ltb, ◌==◌,
  Option, none, some, List, [], ◌∷◌, ◌++◌, length, Result, ok, err, ◌>>=◌, found,
}
use kopdes.Base.Text.{Text, codes, text_eq, is_space, trim_space}
use kopdes.Calendar.Text.{parse_loan_date, format_date}
use kopdes.Rupiah.Decimal.{format_int}
use kopdes.Categories.{CashTransactionCategory}
use kopdes.Accounting.Types.{CoaAccount, Ledger, JournalError}
use kopdes.Accounting.Reversal.{TransactionAudit}

pub data CashDirection : Type 0 where
  cash_in cash_out : CashDirection

-- A row of `manual_cash_transactions`; `source`, `coa_code` and `accounting_direction` follow from
-- the rest.
pub record CashTransaction : Type 0 where
  pub id : Text
  pub transaction_date : Text
  pub direction : CashDirection
  pub category_id : Text
  pub description : Text
  pub amount : ℕ
  pub reference_no : Text
  pub note : Text
  pub recorded_by : Text

-- A row of `manual_cash_transaction_sequences`.
pub record Sequence : Type 0 where
  pub transaction_date : Text
  pub next_sequence : ℕ

pub record CashDesk : Type 0 where
  pub ledger : Ledger
  pub categories : List CashTransactionCategory
  pub transactions : List CashTransaction
  pub sequences : List Sequence
  pub audits : List TransactionAudit

pub data ManualCashError : Type 0 where
  invalid_manual_cash_transaction zero_manual_cash_movement : ManualCashError
  future_manual_cash_transaction unbalanced_financial_journal : ManualCashError
  category_not_found category_inactive category_group category_direction : ManualCashError
  invalid_date duplicate_reference : ManualCashError
  journal_failed : JournalError → ManualCashError
  -- the loop had no fuel left
  unfinished : ManualCashError

abbrev pub Outcome : Type 0 → Type 0
Outcome A = Result ManualCashError A

abbrev pub journaled {ℓ} : {A : Type ℓ} → Result JournalError A → Result ManualCashError A
journaled (ok a) = ok a
journaled (err e) = err (journal_failed e)

-- `isCashBankAccount`
abbrev pub is_cash_bank : CoaAccount → Bool
is_cash_bank a =
    text_eq a.account_type (codes "asset")
    && (text_eq a.subtype (codes "cash")
        || (text_eq a.subtype (codes "bank")
            || (text_eq a.system_key (codes "CASH") || text_eq a.system_key (codes "BANK"))))

abbrev starts_blank : Text → Bool
starts_blank [] = false
starts_blank (c ∷ _) = is_space c

-- Runs of blanks become one.
unfoldable pub squeeze : Text → Text
squeeze [] = []
squeeze (c ∷ r) =
    let r' = squeeze r in
    let kept = if is_space c then 32 ∷ r' else c ∷ r' in
    if is_space c && starts_blank r then r' else kept

-- `normalizeCashTransactionCategoryName`
unfoldable pub normal_name : Text → Text
unfolding squeeze
normal_name value = squeeze (trim_space value)

abbrev pub sequence_of : Text → List Sequence → ℕ
sequence_of date [] = 1
sequence_of date (s ∷ rest) =
    if text_eq s.transaction_date date then s.next_sequence else sequence_of date rest

-- The insertion `ON CONFLICT DO NOTHING` and the updates of the one row.
abbrev pub set_sequence : Text → ℕ → List Sequence → List Sequence
set_sequence date n [] = record { transaction_date = date; next_sequence = n } ∷ []
set_sequence date n (s ∷ rest) =
    let rest' = set_sequence date n rest in
    if text_eq s.transaction_date date then record s { next_sequence = n } ∷ rest else s ∷ rest'

-- `SELECT COUNT(*) FROM manual_cash_transactions WHERE reference_no=$1`, above zero
abbrev pub has_reference : Text → List CashTransaction → Bool
has_reference reference [] = false
has_reference reference (t ∷ rest) =
    text_eq t.reference_no reference || has_reference reference rest

-- `%04d`
unfoldable pub pad_four : Text → Text
pad_four (a ∷ []) = b'0' ∷ b'0' ∷ b'0' ∷ a ∷ []
pad_four (a ∷ b ∷ []) = b'0' ∷ b'0' ∷ a ∷ b ∷ []
pad_four (a ∷ b ∷ c ∷ []) = b'0' ∷ a ∷ b ∷ c ∷ []
pad_four t = t

abbrev pub candidate : Text → ℕ → Text
candidate prefix sequence = prefix ++ pad_four (format_int sequence)

abbrev drop_dashes : Text → Text
drop_dashes [] = []
drop_dashes (c ∷ r) = let r' = drop_dashes r in if c == b'-' then r' else c ∷ r'

-- `manualCashReferencePrefix`
unfoldable pub manual_cash_reference_prefix : Text → Outcome Text
manual_cash_reference_prefix date = do
  d ← found (parse_loan_date date) invalid_date
  ok (codes "KAS-" ++ (drop_dashes (format_date d) ++ b'-' ∷ []))

-- The loop, with the sequence and fuel: the reference and the next sequence.
unfoldable pub next_free : List CashTransaction → Text → ℕ → ℕ → Outcome (Text × ℕ)
next_free transactions prefix zero sequence = err unfinished
next_free transactions prefix (suc fuel) sequence =
    let more = next_free transactions prefix fuel (suc sequence) in
    let reference = candidate prefix sequence in
    if has_reference reference transactions then more else ok (reference, suc sequence)

-- `nextManualCashReference`, with as much fuel as there are transactions, and one more.
unfoldable pub next_manual_cash_reference : CashDesk → Text → Outcome (Text × List Sequence)
unfolding manual_cash_reference_prefix next_free
next_manual_cash_reference desk date = do
  prefix ← manual_cash_reference_prefix date
  (reference, next) ←
      next_free desk.transactions prefix (suc (length desk.transactions))
        (sequence_of date desk.sequences)
  ok (reference, set_sequence date next desk.sequences)

-- The direction of a cash movement and its amount.
abbrev pub direction_of : ℤ → CashDirection
direction_of (pos _) = cash_in
direction_of (negsuc _) = cash_out

abbrev pub amount_of : ℤ → ℕ
amount_of (pos n) = n
amount_of (negsuc n) = suc n

-- What a transaction's row moves, `cash_in` counted up and `cash_out` down.
abbrev pub moved_in : CashTransaction → ℕ
moved_in t = elim t.direction [ cash_in ↦ t.amount | cash_out ↦ 0 ]

abbrev pub moved_out : CashTransaction → ℕ
moved_out t = elim t.direction [ cash_in ↦ 0 | cash_out ↦ t.amount ]
