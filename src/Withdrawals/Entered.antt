-- ===== src/Withdrawals/Entered.antt =====
-- The journal of a withdrawal: internal/app/withdrawals.go.
use kopdes.Base.{
  ℕ, suc, ◌-◌, ◌<◌, ◌≡◌, refl, sym, none, List, [], ◌∷◌, pos, ok, arith, inl, inr, Result-cases,
  positive, positive_lem,
}
use kopdes.Base.Text.{Text, codes, text_eq, to_lower, trim_space, trim_left, trim_right, is_space}
use kopdes.Accounting.Types.{
  debit, credit, LineInput, Ledger, Entry, invalid_manual_cash_transaction,
}
use kopdes.Accounting.Lines.{
  CheckedLine, read_side, check_line, check_lines, journal_lines, balanced_lines,
}
use kopdes.Accounting.Journal.{entry_of, create_financial_journal}
use kopdes.Accounting.Entered.{one_line, both_lines, Enters, create_financial_journal-Enters}
use kopdes.Withdrawals.Types.{Request}
use kopdes.Withdrawals.Disbursement.{withdrawal_journal}

abbrev pub withdrawal_type : Text
withdrawal_type = codes "withdrawal"

abbrev line_input : Text → Text → ℕ → LineInput
line_input component side n = record {
  component = component;
  side = side;
  coa_code = [];
  amount = pos n;
}

abbrev two_lines : ℕ → List LineInput
two_lines n =
    line_input (codes "savings_liability") (codes "debit") n
    ∷ line_input (codes "cash_bank") (codes "credit") n
    ∷ []

liability_line :
    (n : ℕ)
    → check_line (line_input (codes "savings_liability") (codes "debit") (suc n))
      ≡ ok (one_line (codes "savings_liability") debit (suc n))
unfolding check_line read_side to_lower trim_space trim_left trim_right is_space text_eq
liability_line n = refl

cash_line :
    (n : ℕ)
    → check_line (line_input (codes "cash_bank") (codes "credit") (suc n))
      ≡ ok (one_line (codes "cash_bank") credit (suc n))
unfolding check_line read_side to_lower trim_space trim_left trim_right is_space text_eq
cash_line n = refl

two_lines-checked :
    (n : ℕ) {cs : List CheckedLine} {d k : ℕ}
    → check_lines 0 0 (two_lines (suc n)) ≡ ok (cs, d, k)
    → (cs ≡ both_lines (codes "savings_liability") (codes "cash_bank") (suc n)) × (d ≡ suc n)
unfolding check_lines
two_lines-checked n h = ground (arith, liability_line n, cash_line n)

type_as_is : to_lower (trim_space withdrawal_type) ≡ withdrawal_type
unfolding to_lower trim_space trim_left trim_right is_space
type_as_is = refl

-- The two lines of a withdrawal's journal, checked.
journal_checked :
    (r : Request) (record_id date description by : Text) (n : ℕ) {cs : List CheckedLine} {total : ℕ}
    → r.amount ≡ suc n
    → balanced_lines (withdrawal_journal r record_id date description by) ≡ ok (cs, total)
    → (cs ≡ both_lines (codes "savings_liability") (codes "cash_bank") (suc n)) × (total ≡ suc n)
unfolding balanced_lines journal_lines
journal_checked r record_id date description by n {cs} {total} e h =
    elim (Result-cases (check_lines 0 0 (two_lines (suc n)))) [
      | inr (x, bad) ↦ absurd (ground (arith, rw e at h))
      | inl ((cs', d, k), s) ↦
          let checked = two_lines-checked n {cs = cs'} {d = d} {k = k} s in
          ground (arith, rw e at h, checked)
    ]

withdrawal_journal-positive :
    (ledger : Ledger) (r : Request) (record_id date description by journal_id : Text)
    {ledger' : Ledger}
    → create_financial_journal ledger
        (withdrawal_journal r record_id date description by)
        journal_id
      ≡ ok ledger'
    → 0 < r.amount
unfolding create_financial_journal
withdrawal_journal-positive ledger r record_id date description by journal_id h =
    elim (Result-cases (positive (pos r.amount) invalid_manual_cash_transaction)) [
      | inr (x, bad) ↦ absurd (ground arith)
      | inl (n, e) ↦
          let (above, same) = positive_lem (pos r.amount) invalid_manual_cash_transaction e in
          ground (arith, above, same)
    ]

-- The entry of a withdrawal's journal.
pub withdrawal_journal-Enters :
    (ledger : Ledger) (r : Request) (record_id date description by journal_id : Text)
    {ledger' : Ledger}
    → create_financial_journal ledger
        (withdrawal_journal r record_id date description by)
        journal_id
      ≡ ok ledger'
    → entry_of record_id withdrawal_type ledger.entries ≡ none
    → (c : Entry) × Enters ledger ledger' record_id withdrawal_type journal_id
        (codes "savings_liability")
        (codes "cash_bank")
        r.amount
        c
withdrawal_journal-Enters ledger r record_id date description by journal_id {ledger'} h unused =
    let z =
      withdrawal_journal-positive ledger r record_id date description by journal_id
        {ledger' = ledger'} h in
    let is_suc : r.amount ≡ suc (r.amount - 1) = omega (arith, z) in
    create_financial_journal-Enters ledger (withdrawal_journal r record_id date description by)
      withdrawal_type journal_id (codes "savings_liability") (codes "cash_bank") r.amount
      {ledger' = ledger'} h type_as_is unused
      (λ cs total balanced. rw (sym is_suc) at (
        journal_checked r record_id date description by (r.amount - 1) {cs = cs} {total = total}
          is_suc balanced))
