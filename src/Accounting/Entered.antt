-- ===== src/Accounting/Entered.antt =====
-- The entry of a new journal of two lines: createFinancialJournalTx of internal/app/accounting.go, for
-- a debit and a credit of the whole amount.
use kopdes.Base.{
  ℕ, ◌+◌, ◌≡◌, refl, ap, ◌∙◌, none, List, [], ◌∷◌, ◌++◌, map, sum_of, ok, arith, inl, inr,
  Result-cases, Option-cases,
}
use kopdes.Base.Text.{Text, to_lower, trim_space}
use kopdes.Accounting.Types.{Side, debit, credit, Line, Ledger, JournalInput, Entry}
use kopdes.Accounting.Lines.{CheckedLine, debit_of, credit_of, balanced_lines}
use kopdes.Accounting.Mapping.{account_of, coa_account_for_posting}
use kopdes.Accounting.Journal.{
  line_code, post_line, post_lines, entry_of, entry_row, write_entry, create_financial_journal,
}
use kopdes.Accounting.Reversed.{IsPaired}
use kopdes.Accounting.Balance.{post_line-keeps}

post_lines-sides :
    (h : Side → ℕ) (ledger : Ledger) (input : JournalInput) (cs : List CheckedLine) {ls : List Line}
    → post_lines ledger input cs ≡ ok ls
    → sum_of (λ (l : Line). h l.side) ls ≡ sum_of (λ (c : CheckedLine). h c.side) cs
unfolding post_lines
post_lines-sides h ledger input [] {ls} e =
    let none_left : ls ≡ [] = ground arith in rw none_left refl
post_lines-sides h ledger input (c ∷ cs) {ls} e = elim (Result-cases (post_line ledger input c)) [
  | inr (x, bad) ↦ absurd (ground arith)
  | inl (l, first) ↦ elim (Result-cases (post_lines ledger input cs)) [
    | inr (x, bad) ↦ absurd (ground arith)
    | inl (ls', rest) ↦
        let whole : ls ≡ l ∷ ls' = ground arith in
        let side = (post_line-keeps ledger input c first).0 in
        rw (whole, side) (ap (λ (n : ℕ). h c.side + n) (post_lines-sides h ledger input cs rest))
  ]
]

-- A line whose account is to be found, and the two lines of a journal of an amount.
abbrev pub one_line : Text → Side → ℕ → CheckedLine
one_line component side n = record { component = component; side = side; coa_code = []; amount = n }

abbrev pub both_lines : Text → Text → ℕ → List CheckedLine
both_lines debited credited n = one_line debited debit n ∷ one_line credited credit n ∷ []

-- What a line says of its component.
abbrev pub posting_of : Line → Text × Side × ℕ
posting_of l = (l.component, l.side, l.amount)

abbrev asked_of : CheckedLine → Text × Side × ℕ
asked_of c = (c.component, c.side, c.amount)

post_line-posting :
    (ledger : Ledger) (input : JournalInput) (c : CheckedLine) {l : Line}
    → post_line ledger input c ≡ ok l
    → posting_of l ≡ asked_of c
unfolding post_line coa_account_for_posting
post_line-posting ledger input c h =
    elim (Option-cases (account_of (line_code ledger input c).0 ledger.accounts)) [
      | inl missing ↦ ground arith
      | inr (a, e) ↦ ground arith
    ]

post_lines-postings :
    (ledger : Ledger) (input : JournalInput) (cs : List CheckedLine) {ls : List Line}
    → post_lines ledger input cs ≡ ok ls
    → map posting_of ls ≡ map asked_of cs
unfolding post_lines
post_lines-postings ledger input [] {ls} e =
    let none_left : ls ≡ [] = ground arith in rw none_left refl
post_lines-postings ledger input (c ∷ cs) {ls} e = elim (Result-cases (post_line ledger input c)) [
  | inr (x, bad) ↦ absurd (ground arith)
  | inl (l, first) ↦ elim (Result-cases (post_lines ledger input cs)) [
    | inr (x, bad) ↦ absurd (ground arith)
    | inl (ls', rest) ↦
        let whole : ls ≡ l ∷ ls' = ground arith in
        rw (whole, post_line-posting ledger input c first)
          (ap (λ (ps : List (Text × Side × ℕ)). asked_of c ∷ ps)
            (post_lines-postings ledger input cs rest))
  ]
]

-- The new entry of a transaction, which debits one component and credits another.
pub record Enters (ledger ledger' : Ledger) (transaction_id type journal_id debited credited : Text)
    (amount : ℕ) (c : Entry) : Type 0 where
  pub rows : ledger'.entries ≡ ledger.entries ++ c ∷ []
  pub id : c.id ≡ journal_id
  pub of_transaction : c.transaction_id ≡ transaction_id
  pub of_type : c.transaction_type ≡ type
  pub original : c.reversal_of ≡ none
  pub of_amount : c.amount ≡ amount
  pub paired : IsPaired c.lines
  pub postings : map posting_of c.lines ≡ (debited, debit, amount) ∷ (credited, credit, amount) ∷ []

pub create_financial_journal-Enters :
    (ledger : Ledger) (input : JournalInput) (type journal_id debited credited : Text) (n : ℕ)
    {ledger' : Ledger}
    → create_financial_journal ledger input journal_id ≡ ok ledger'
    → to_lower (trim_space input.transaction_type) ≡ type
    → entry_of input.transaction_id type ledger.entries ≡ none
    → ((cs : List CheckedLine) (total : ℕ)
        → balanced_lines input ≡ ok (cs, total)
        → (cs ≡ both_lines debited credited n) × (total ≡ n))
    → (c : Entry) × Enters ledger ledger' input.transaction_id type journal_id debited credited n c
unfolding create_financial_journal write_entry entry_row
create_financial_journal-Enters ledger input type journal_id debited credited n {ledger'} h kind
      unused checked =
    let unused' : entry_of input.transaction_id (to_lower (trim_space input.transaction_type))
          ledger.entries
        ≡ none =
      rw kind unused in
    elim (Result-cases (balanced_lines input)) [
      | inr (x, bad) ↦ absurd (ground arith)
      | inl ((cs, total), balanced) ↦ elim (Result-cases (post_lines ledger input cs)) [
        | inr (x, bad) ↦ absurd (ground (arith, unused'))
        | inl (ls, lined) ↦
            let (two, whole) = checked cs total balanced in
            let sides = λ (side : Side → ℕ). post_lines-sides side ledger input cs lined in
            (
              entry_row input journal_id none total ls,
              record {
                rows = ground (arith, unused');
                id = refl;
                of_transaction = refl;
                of_type = kind;
                original = refl;
                of_amount = whole;
                paired = record {
                  debits_once = sides (λ s. debit_of s 1) ∙ rw two refl;
                  credits_once = sides (λ s. credit_of s 1) ∙ rw two refl;
                };
                postings = post_lines-postings ledger input cs lined ∙ rw two refl;
              },
            )
      ]
    ]
