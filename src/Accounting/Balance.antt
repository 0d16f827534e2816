-- ===== src/Accounting/Balance.antt =====
-- When a ledger balances, for `createFinancialJournalTx` of internal/app/accounting.go.
use kopdes.Base.{
  ℕ, ◌+◌, ◌<◌, ◌≡◌, refl, true, false, Option, none, some, List, [], ◌∷◌, ◌++◌, All, sum_of, arith,
  ok, Result-cases, Bool-cases, Option-cases, ◌∙◌, ◌⊎◌, inl, inr,
}
use kopdes.Base.Text.{Text, text_eq, is_empty, to_lower, trim_space}
use kopdes.Accounting.Types.{
  Line, LineInput, JournalStatus, pending_mapping, posted, Entry, Ledger, JournalInput,
}
use kopdes.Accounting.Lines.{
  CheckedLine, check_line, check_lines, debit_of, credit_of, balanced_lines, journal_lines,
}
use kopdes.Accounting.Mapping.{coa_account_for_posting, account_of}
use kopdes.Accounting.Journal.{
  post_line, post_lines, line_code, entry_row, write_entry, entry_of, replace_entry, status_of,
  create_financial_journal,
}

abbrev pub debits : List Line → ℕ
debits = sum_of (λ (l : Line). debit_of l.side l.amount)

abbrev pub credits : List Line → ℕ
credits = sum_of (λ (l : Line). credit_of l.side l.amount)

abbrev checked_debits : List CheckedLine → ℕ
checked_debits = sum_of (λ (l : CheckedLine). debit_of l.side l.amount)

abbrev checked_credits : List CheckedLine → ℕ
checked_credits = sum_of (λ (l : CheckedLine). credit_of l.side l.amount)

-- An account that may be posted to.
abbrev pub IsPostable : Ledger → Text → Type 0
IsPostable ledger code =
    (a : _) × (account_of code ledger.accounts ≡ some a) × (a.active ≡ true) × (a.is_group ≡ false)

-- A line with no account, or with one that may be posted to.
abbrev pub IsCoded : Ledger → Line → Type 0
IsCoded ledger l = (is_empty l.coa_code ≡ true) ⊎ IsPostable ledger l.coa_code

-- Debits, credits and the amount of an entry are one positive number.
pub record IsBalanced (e : Entry) : Type 0 where
  pub debited : debits e.lines ≡ e.amount
  pub credited : credits e.lines ≡ e.amount
  pub is_positive : 0 < e.amount

-- Posted exactly when every line has an account.
abbrev pub HasStatus : Entry → Type 0
HasStatus e = e.status ≡ status_of e.lines

pub check_lines-totals :
    (d k : ℕ) (ls : List LineInput) {cs : List CheckedLine} {d' k' : ℕ}
    → check_lines d k ls ≡ ok (cs, d', k')
    → (d' ≡ d + checked_debits cs) × (k' ≡ k + checked_credits cs)
unfolding check_lines
check_lines-totals d k [] h = ground arith
check_lines-totals d k (l ∷ ls) h = elim (Result-cases (check_line l)) [
  | inr (x, e) ↦ ground arith
  | inl (c, e) ↦
      elim (Result-cases
        (check_lines (d + debit_of c.side c.amount) (k + credit_of c.side c.amount) ls)) [
          | inr (x, e') ↦ ground arith
          | inl ((cs', d'', k''), e') ↦ ground (
            arith,
            check_lines-totals (d + debit_of c.side c.amount) (k + credit_of c.side c.amount) ls e',
          )
        ]
]

pub balanced_lines-totals :
    (input : JournalInput) {cs : List CheckedLine} {total : ℕ}
    → balanced_lines input ≡ ok (cs, total)
    → (checked_debits cs ≡ total) × (checked_credits cs ≡ total) × (0 < total)
unfolding balanced_lines
balanced_lines-totals input h = elim (Result-cases (journal_lines input)) [
  | inr (x, e) ↦ ground arith
  | inl (ls, e) ↦ elim (Result-cases (check_lines 0 0 ls)) [
    | inr (x, e') ↦ ground arith
    | inl ((cs', d, k), e') ↦ ground (arith, check_lines-totals 0 0 ls e')
  ]
]

pub post_line-keeps :
    (ledger : Ledger) (input : JournalInput) (c : CheckedLine) {l : Line}
    → post_line ledger input c ≡ ok l
    → (l.side ≡ c.side) × (l.amount ≡ c.amount) × IsCoded ledger l
unfolding post_line coa_account_for_posting
post_line-keeps ledger input c h =
    elim (Option-cases (account_of (line_code ledger input c).0 ledger.accounts)) [
      | inl missing ↦ ground arith
      | inr (a, e) ↦ elim (Bool-cases (is_empty (line_code ledger input c).0)) [
        | inl blank ↦ (ground arith, ground arith, inl (ground arith))
        | inr coded ↦
            (ground arith, ground arith, inr (a, ground (arith, e), ground arith, ground arith))
      ]
    ]

post_lines-keeps :
    (ledger : Ledger) (input : JournalInput) (cs : List CheckedLine) {ls : List Line}
    → post_lines ledger input cs ≡ ok ls
    → (debits ls ≡ checked_debits cs) × (credits ls ≡ checked_credits cs) × All (IsCoded ledger) ls
unfolding post_lines
post_lines-keeps ledger input [] {ls} h = let e : ls ≡ [] = ground arith in rw e (refl, refl, tt)
post_lines-keeps ledger input (c ∷ cs) {ls} h = elim (Result-cases (post_line ledger input c)) [
  | inr (x, e) ↦ absurd (ground arith)
  | inl (l, e) ↦ elim (Result-cases (post_lines ledger input cs)) [
    | inr (x, e') ↦ absurd (ground arith)
    | inl (ls', e') ↦
        let whole : ls ≡ l ∷ ls' = ground arith in
        let (side, amount, coded) = post_line-keeps ledger input c e in
        let (d, k, rest) = post_lines-keeps ledger input cs e' in
        rw whole (ground (arith, side, amount, d), ground (arith, side, amount, k), (coded, rest))
  ]
]

abbrev pub AllBalanced : Ledger → Type 0
AllBalanced ledger = All (λ (e : Entry). IsBalanced e × HasStatus e) ledger.entries

All-snoc {ℓ κ} :
    {A : Type ℓ} (P : A → Type κ) (xs : List A) {x : A} → All P xs → P x → All P (xs ++ x ∷ [])
All-snoc P [] h p = (p, tt)
All-snoc P (y ∷ xs) h p = (h.0, All-snoc P xs h.1 p)

All-replace_entry :
    (P : Entry → Type 0) (new : Entry) (es : List Entry)
    → All P es
    → P new
    → All P (replace_entry new es)
All-replace_entry P new [] h p = tt
All-replace_entry P new (e ∷ es) h p = elim (Bool-cases (text_eq e.id new.id)) [
  | inl same ↦ rw same (p, All-replace_entry P new es h.1 p)
  | inr other ↦ rw other (h.0, All-replace_entry P new es h.1 p)
]

module _ (ledger : Ledger) (input : JournalInput) (cs : List CheckedLine) (total : ℕ) where
  entry_row-IsBalanced :
      (id : Text) (reversal_of : Option Text) (ls : List Line)
      → balanced_lines input ≡ ok (cs, total)
      → post_lines ledger input cs ≡ ok ls
      → IsBalanced (entry_row input id reversal_of total ls)
        × HasStatus (entry_row input id reversal_of total ls)
  unfolding entry_row
  entry_row-IsBalanced id r ls b p =
      let (d, k, z) = balanced_lines-totals input b in
      let (d', k', _) = post_lines-keeps ledger input cs p in
      (record { debited = d' ∙ d; credited = k' ∙ k; is_positive = z }, refl)

  rewrite-AllBalanced :
      (e : Entry) (status : JournalStatus) {ledger' : Ledger}
      → e.status ≡ status
      → balanced_lines input ≡ ok (cs, total)
      → write_entry ledger input [] cs total (some e) ≡ ok ledger'
      → AllBalanced ledger
      → AllBalanced ledger'
  unfolding write_entry
  rewrite-AllBalanced e posted {ledger'} s b w h =
      let same : ledger' ≡ ledger = ground arith in rw same h
  rewrite-AllBalanced e pending_mapping {ledger'} s b w h =
      elim (Result-cases (post_lines ledger input cs)) [
        | inr (x, bad) ↦ absurd (ground arith)
        | inl (ls, e') ↦
            let entries' : ledger'.entries
                ≡ replace_entry (entry_row input e.id e.reversal_of total ls) ledger.entries =
              ground arith in
            rw entries' (
              All-replace_entry _ _ ledger.entries h
                (entry_row-IsBalanced e.id e.reversal_of ls b e'))
      ]

  write_entry-AllBalanced :
      (new_id : Text) (old : Option Entry) {ledger' : Ledger}
      → balanced_lines input ≡ ok (cs, total)
      → write_entry ledger input new_id cs total old ≡ ok ledger'
      → AllBalanced ledger
      → AllBalanced ledger'
  unfolding write_entry
  write_entry-AllBalanced new_id none {ledger'} b w h =
      elim (Result-cases (post_lines ledger input cs)) [
        | inr (x, e) ↦ absurd (ground arith)
        | inl (ls, e) ↦
            let entries' : ledger'.entries
                ≡ ledger.entries ++ entry_row input new_id none total ls ∷ [] =
              ground arith in
            rw entries' (All-snoc _ ledger.entries h (entry_row-IsBalanced new_id none ls b e))
      ]
  write_entry-AllBalanced new_id (some e) b w h = rewrite-AllBalanced e e.status refl b w h

-- If every entry of the ledger balances (debits, credits and the entry's amount are one positive
-- number) and is posted exactly when each of its lines has an account, then so it is after a journal
-- is created or rewritten.
pub create_financial_journal-AllBalanced :
    (ledger : Ledger) (input : JournalInput) (new_id : Text) {ledger' : Ledger}
    → create_financial_journal ledger input new_id ≡ ok ledger'
    → AllBalanced ledger
    → AllBalanced ledger'
unfolding create_financial_journal
create_financial_journal-AllBalanced ledger input new_id {ledger'} h all =
    elim (Result-cases (balanced_lines input)) [
      | inr (x, e) ↦ absurd (ground arith)
      | inl ((cs, total), e) ↦
          write_entry-AllBalanced ledger input cs total new_id
            (entry_of input.transaction_id (to_lower (trim_space input.transaction_type))
              ledger.entries)
            {ledger' = ledger'} e (ground arith) all
    ]
