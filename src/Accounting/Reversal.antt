-- ===== src/Accounting/Reversal.antt =====
-- Reversing an entry of the ledger: `insertRepaymentJournalReversalTx` of
-- internal/app/repayment_corrections.go, which `insertSavingJournalReversalTx` of
-- internal/app/saving_corrections.go repeats, and the choice of the entry. The column
-- `correction_reason` is left out, and entries stand in the order of their creation.
use kopdes.Base.{
  ℕ, ◌+◌, ◌-◌, not, Bool, true, false, ◌&&◌, ◌||◌, ltb, ◌==◌, if◌then◌else◌, Option, none, some,
  List, [], ◌∷◌, ◌++◌, map, max_int64, ok, ◌>>=◌, ◌>>◌, reject_if,
}
use kopdes.Base.Text.{Text, codes, text_eq, is_empty}
use kopdes.Accounting.Types.{
  Side, debit, credit, Line, Entry, posted, Journaled, invalid_journal_reversal,
}
use kopdes.Accounting.Lines.{debit_of, credit_of}

-- A row of `financial_transaction_audits`, without a batch.
pub record TransactionAudit : Type 0 where
  pub transaction_id : Text
  pub transaction_type : Text
  pub actor_id : Text
  pub field_name : Text
  pub old_value : Text
  pub new_value : Text

abbrev pub key_of_entry : Entry → Text
key_of_entry e = e.id

-- `EXISTS(SELECT 1 FROM financial_journal_entries r WHERE r.reversal_of=e.id)`
abbrev pub reverses : Text → Option Text → Bool
reverses id none = false
reverses id (some t) = text_eq t id

abbrev pub is_reversed : Text → List Entry → Bool
is_reversed id [] = false
is_reversed id (r ∷ rest) = reverses id r.reversal_of || is_reversed id rest

abbrev pub is_original : Option Text → Bool
is_original none = true
is_original (some _) = false

abbrev pub belongs : Text → Text → Entry → Bool
belongs transaction_id transaction_type e =
    text_eq e.transaction_id transaction_id && text_eq e.transaction_type transaction_type

-- An entry of the transaction that reverses none and is not reversed among `all`.
abbrev pub is_live : Text → Text → List Entry → Entry → Bool
is_live transaction_id transaction_type all e =
    belongs transaction_id transaction_type e
    && (is_original e.reversal_of && not (is_reversed e.id all))

-- `transaction_id=$1 AND transaction_type=… AND reversal_of IS NULL`
abbrev pub is_source : Text → Text → Entry → Bool
is_source transaction_id transaction_type e =
    belongs transaction_id transaction_type e && is_original e.reversal_of

-- `ORDER BY created_at DESC … LIMIT 1`
abbrev pub last_of : (Entry → Bool) → List Entry → Option Entry
last_of test [] = none
last_of test (e ∷ rest) =
    let later = last_of test rest in
    elim later [ some l ↦ some l | none ↦ if test e then some e else none ]

abbrev pub has_entry : (Entry → Bool) → List Entry → Bool
has_entry test [] = false
has_entry test (e ∷ rest) = test e || has_entry test rest

abbrev pub opposite : Side → Side
opposite debit = credit
opposite credit = debit

abbrev pub reversed_line : Line → Line
reversed_line l = record l { side = opposite l.side; mapping_override = true }

-- The loop over the lines: both totals, within int64.
unfoldable pub reversal_totals : ℕ → ℕ → List Line → Journaled (ℕ × ℕ)
reversal_totals debits credits [] = ok (debits, credits)
reversal_totals debits credits (l ∷ ls) =
    let total : ℕ = elim l.side [ debit ↦ debits | credit ↦ credits ] in
    let rest : Journaled (ℕ × ℕ) =
      reversal_totals (debits + debit_of l.side l.amount) (credits + credit_of l.side l.amount)
        ls in
    reject_if (l.amount == 0 || is_empty l.coa_code) invalid_journal_reversal
    >> (reject_if (ltb (max_int64 - total) l.amount) invalid_journal_reversal >> rest)

abbrev pub has_no_lines : List Line → Bool
has_no_lines [] = true
has_no_lines (_ ∷ _) = false

-- The row of the reversal, with its lines.
abbrev pub reversal_entry : Entry → Text → Text → Text → Text → ℕ → Entry
reversal_entry e today prefix actor_id new_id total = record e {
  id = new_id;
  reference_no = codes "REV-" ++ (if is_empty e.reference_no then e.id else e.reference_no);
  transaction_date = today;
  amount = total;
  status = posted;
  description = prefix ++ e.description;
  recorded_by = actor_id;
  reversal_of = some e.id;
  lines = map reversed_line e.lines;
}

-- `insertRepaymentJournalReversalTx`; the prefix is that of the description.
unfoldable pub reverse_entry : Entry → Text → Text → Text → Text → Journaled Entry
unfolding reversal_totals
reverse_entry e today prefix actor_id new_id = do
  reject_if (has_no_lines e.lines || e.amount == 0) invalid_journal_reversal
  (debits, credits) ← reversal_totals 0 0 e.lines
  reject_if (debits == 0 || (not (debits == credits) || not (debits == e.amount)))
      invalid_journal_reversal
  ok (reversal_entry e today prefix actor_id new_id debits)

-- `UPDATE financial_journal_lines SET amount=$1`
abbrev pub set_amounts : ℕ → List Line → List Line
set_amounts n = map (λ (l : Line). record l { amount = n })
