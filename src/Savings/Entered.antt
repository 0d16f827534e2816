-- ===== src/Savings/Entered.antt =====
-- The journal of a deposit: internal/app/savings.go and internal/app/saving_corrections.go.
use kopdes.Base.{
  ℕ, suc, ◌-◌, ◌<◌, ◌≡◌, refl, sym, none, List, [], ◌∷◌, pos, ok, arith, inl, inr, Result-cases,
}
use kopdes.Base.Text.{Text, codes, text_eq, to_lower, trim_space, trim_left, trim_right, is_space}
use kopdes.Accounting.Types.{debit, credit, LineInput, Ledger, Entry}
use kopdes.Accounting.Lines.{
  CheckedLine, read_side, check_line, check_lines, journal_lines, balanced_lines,
}
use kopdes.Accounting.Journal.{entry_of, create_financial_journal}
use kopdes.Accounting.Entered.{one_line, both_lines, Enters, create_financial_journal-Enters}
use kopdes.Savings.{SavingRecord}
use kopdes.Savings.Records.{saving_journal}

abbrev pub savings_type : Text
savings_type = codes "savings"

abbrev two_lines : ℕ → List LineInput
two_lines n =
    record { component = codes "cash_bank"; side = codes "debit"; coa_code = []; amount = pos n }
    ∷ record {
      component = codes "savings_liability";
      side = codes "credit";
      coa_code = [];
      amount = pos n;
    }
    ∷ []

debit_line :
    (n : ℕ)
    → check_line (record {
      component = codes "cash_bank";
      side = codes "debit";
      coa_code = [];
      amount = pos (suc n);
    })
      ≡ ok (one_line (codes "cash_bank") debit (suc n))
unfolding check_line read_side to_lower trim_space trim_left trim_right is_space text_eq
debit_line n = refl

credit_line :
    (n : ℕ)
    → check_line (record {
      component = codes "savings_liability";
      side = codes "credit";
      coa_code = [];
      amount = pos (suc n);
    })
      ≡ ok (one_line (codes "savings_liability") credit (suc n))
unfolding check_line read_side to_lower trim_space trim_left trim_right is_space text_eq
credit_line n = refl

two_lines-checked :
    (n : ℕ) {cs : List CheckedLine} {d k : ℕ}
    → check_lines 0 0 (two_lines (suc n)) ≡ ok (cs, d, k)
    → (cs ≡ both_lines (codes "cash_bank") (codes "savings_liability") (suc n)) × (d ≡ suc n)
unfolding check_lines
two_lines-checked n h = ground (arith, debit_line n, credit_line n)

type_as_is : to_lower (trim_space savings_type) ≡ savings_type
unfolding to_lower trim_space trim_left trim_right is_space
type_as_is = refl

-- The two lines of a deposit's journal, checked.
journal_checked :
    (r : SavingRecord) (overrides : List (Text × Text)) (description by : Text) (n : ℕ)
    {cs : List CheckedLine} {total : ℕ}
    → r.amount ≡ suc n
    → balanced_lines (saving_journal r overrides description by) ≡ ok (cs, total)
    → (cs ≡ both_lines (codes "cash_bank") (codes "savings_liability") (suc n)) × (total ≡ suc n)
unfolding balanced_lines journal_lines
journal_checked r overrides description by n {cs} {total} e h =
    elim (Result-cases (check_lines 0 0 (two_lines (suc n)))) [
      | inr (x, bad) ↦ absurd (ground (arith, rw e at h))
      | inl ((cs', d, k), s) ↦
          let checked = two_lines-checked n {cs = cs'} {d = d} {k = k} s in
          ground (arith, rw e at h, checked)
    ]

-- The entry of a deposit's journal.
pub saving_journal-Enters :
    (ledger : Ledger) (r : SavingRecord) (overrides : List (Text × Text))
    (description by journal_id : Text) {ledger' : Ledger}
    → create_financial_journal ledger (saving_journal r overrides description by) journal_id
      ≡ ok ledger'
    → entry_of r.id savings_type ledger.entries ≡ none
    → 0 < r.amount
    → (c : Entry) × Enters ledger ledger' r.id savings_type journal_id
        (codes "cash_bank")
        (codes "savings_liability")
        r.amount
        c
saving_journal-Enters ledger r overrides description by journal_id {ledger'} h unused z =
    let is_suc : r.amount ≡ suc (r.amount - 1) = omega (arith, z) in
    create_financial_journal-Enters ledger (saving_journal r overrides description by) savings_type
      journal_id (codes "cash_bank") (codes "savings_liability") r.amount {ledger' = ledger'} h
      type_as_is unused
      (λ cs total balanced. rw (sym is_suc) at (
        journal_checked r overrides description by (r.amount - 1) {cs = cs} {total = total} is_suc
          balanced))
