-- ===== src/ManualCash/Moved.antt =====
-- The lines of a manual journal against the sums of `insertManualCashTransactionTx`
-- (internal/app/manual_cash_transactions.go).
use kopdes.Base.{
  ℕ, zero, suc, ◌+◌, ◌≡◌, refl, ap, ◌∙◌, false, ℤ, pos, negsuc, List, [], ◌∷◌, sum_of, All, ok,
  arith, inl, inr, Option-cases, Result-cases,
}
use kopdes.Base.Text.{
  Text, codes, text_eq, is_empty, trim_space, trim_left, trim_right, is_space, to_lower,
}
use kopdes.Base.Trimmed.{trim_space-twice}
use kopdes.Accounting.Types.{Ledger, LineInput, Line, Side, debit, credit, JournalInput}
use kopdes.Accounting.Mapping.{coa_account_for_posting, account_of}
use kopdes.Accounting.Lines.{CheckedLine, check_line, check_lines, read_side, debit_of, credit_of}
use kopdes.Accounting.Journal.{post_line, post_lines, line_code}
use kopdes.ManualCash.Reversal.{cash_debited, cash_credited}
use kopdes.ManualCash.Posting.{ManualLine, Sums, manual_entry, manual_entries, manual_line}

-- A checked line as a line of the ledger, with an account.
abbrev pub as_line : CheckedLine → Line
as_line c = record {
  side = c.side;
  coa_code = c.coa_code;
  amount = c.amount;
  component = c.component;
  mapping_override = false;
}

abbrev manual_checked : Side → Text → ℕ → CheckedLine
manual_checked side code n = record {
  component = codes "manual";
  side = side;
  coa_code = code;
  amount = n;
}

check_debit :
    (code : Text) (n : ℕ)
    → check_line (manual_line (codes "debit") code (pos (suc n)))
      ≡ ok (manual_checked debit (trim_space code) (suc n))
unfolding check_line read_side text_eq to_lower trim_space trim_left trim_right is_space
check_debit code n = refl

check_credit :
    (code : Text) (n : ℕ)
    → check_line (manual_line (codes "credit") code (pos (suc n)))
      ≡ ok (manual_checked credit (trim_space code) (suc n))
unfolding check_line read_side text_eq to_lower trim_space trim_left trim_right is_space
check_credit code n = refl

-- One line of the request, and the checked line that its journal has.
record Becomes (ledger : Ledger) (t t' : Sums) (i : LineInput) (c : CheckedLine) : Type 0 where
  checked : check_line i ≡ ok c
  coded : is_empty c.coa_code ≡ false
  cash_in_sum : t'.cash_debits ≡ t.cash_debits + cash_debited ledger.accounts (as_line c)
  cash_out_sum : t'.cash_credits ≡ t.cash_credits + cash_credited ledger.accounts (as_line c)

manual_debit :
    (ledger : Ledger) (t : Sums) (code : Text) (d : ℕ) (k : ℤ) {t' : Sums} {i : LineInput}
    → manual_entry ledger t (record { coa_code = code; debit = pos (suc d); credit = k })
      ≡ ok (t', i)
    → (c : CheckedLine) × Becomes ledger t t' i c
unfolding manual_entry coa_account_for_posting
manual_debit ledger t code d k {t'} {i} h =
    elim (Option-cases (account_of (trim_space code) ledger.accounts)) [
      | inl missing ↦ absurd (ground arith)
      | inr (a, e) ↦
          let line : i ≡ manual_line (codes "debit") (trim_space code) (pos (suc d)) =
            ground arith in
          let checked = check_debit (trim_space code) d in
          (
            manual_checked debit (trim_space code) (suc d),
            record {
              checked = rw line (rw (trim_space-twice code) at checked);
              coded = ground arith;
              cash_in_sum = ground (arith, e);
              cash_out_sum = ground (arith, e);
            },
          )
    ]

manual_credit :
    (ledger : Ledger) (t : Sums) (code : Text) (k : ℕ) {t' : Sums} {i : LineInput}
    → manual_entry ledger t (record { coa_code = code; debit = pos 0; credit = pos (suc k) })
      ≡ ok (t', i)
    → (c : CheckedLine) × Becomes ledger t t' i c
unfolding manual_entry coa_account_for_posting
manual_credit ledger t code k {t'} {i} h =
    elim (Option-cases (account_of (trim_space code) ledger.accounts)) [
      | inl missing ↦ absurd (ground arith)
      | inr (a, e) ↦
          let line : i ≡ manual_line (codes "credit") (trim_space code) (pos (suc k)) =
            ground arith in
          let checked = check_credit (trim_space code) k in
          (
            manual_checked credit (trim_space code) (suc k),
            record {
              checked = rw line (rw (trim_space-twice code) at checked);
              coded = ground arith;
              cash_in_sum = ground (arith, e);
              cash_out_sum = ground (arith, e);
            },
          )
    ]

-- The guards leave these two.
manual_entry-Becomes :
    (ledger : Ledger) (t : Sums) (code : Text) (d k : ℤ) {t' : Sums} {i : LineInput}
    → manual_entry ledger t (record { coa_code = code; debit = d; credit = k }) ≡ ok (t', i)
    → (c : CheckedLine) × Becomes ledger t t' i c
manual_entry-Becomes ledger t code (pos (suc d)) k h = manual_debit ledger t code d k h
manual_entry-Becomes ledger t code (pos zero) (pos (suc k)) h = manual_credit ledger t code k h
manual_entry-Becomes ledger t code (pos zero) (pos zero) h =
    absurd (unfold manual_entry in ground arith)
manual_entry-Becomes ledger t code (pos zero) (negsuc k) h =
    absurd (unfold manual_entry in ground arith)
manual_entry-Becomes ledger t code (negsuc d) k h = absurd (unfold manual_entry in ground arith)

abbrev checked_in : Ledger → List CheckedLine → ℕ
checked_in ledger = sum_of (λ (c : CheckedLine). cash_debited ledger.accounts (as_line c))

abbrev checked_out : Ledger → List CheckedLine → ℕ
checked_out ledger = sum_of (λ (c : CheckedLine). cash_credited ledger.accounts (as_line c))

abbrev AllCoded : List CheckedLine → Type 0
AllCoded = All (λ (c : CheckedLine). is_empty c.coa_code ≡ false)

-- All lines, and the checked lines that their journal has.
record BecomeAll (ledger : Ledger) (t t' : Sums) (ins : List LineInput) (cs : List CheckedLine)
    : Type 0 where
  only :
      (d k d' k' : ℕ) (cs' : List CheckedLine) → check_lines d k ins ≡ ok (cs', d', k') → cs' ≡ cs
  all_coded : AllCoded cs
  cash_in_sum : t'.cash_debits ≡ t.cash_debits + checked_in ledger cs
  cash_out_sum : t'.cash_credits ≡ t.cash_credits + checked_out ledger cs

check_lines-cons :
    (i : LineInput) (c : CheckedLine) (ins : List LineInput) (d k d' k' : ℕ)
    (cs' : List CheckedLine)
    → check_line i ≡ ok c
    → check_lines d k (i ∷ ins) ≡ ok (cs', d', k')
    → (rest : List CheckedLine) × (check_lines
          (d + debit_of c.side c.amount)
          (k + credit_of c.side c.amount)
          ins
        ≡ ok (rest, d', k'))
      × (cs' ≡ c ∷ rest)
unfolding check_lines
check_lines-cons i c ins d k d' k' cs' e h =
    elim (Result-cases
      (check_lines (d + debit_of c.side c.amount) (k + credit_of c.side c.amount) ins)) [
        | inr (x, bad) ↦ absurd (ground (arith, rw e at h))
        | inl ((rest, d'', k''), e') ↦
            (rest, ground (arith, rw e at h, e'), ground (arith, rw e at h))
      ]

manual_entries-BecomeAll :
    (ledger : Ledger) (t : Sums) (ls : List ManualLine) {t' : Sums} {ins : List LineInput}
    → manual_entries ledger t ls ≡ ok (t', ins)
    → (cs : List CheckedLine) × BecomeAll ledger t t' ins cs
unfolding manual_entries
manual_entries-BecomeAll ledger t [] {t'} {ins} h =
    let done : ins ≡ [] = ground arith in
    let same : t' ≡ t = ground arith in
    (
      [],
      record {
        only = λ d k d' k' cs' e. let e' = rw done at e in unfold check_lines in ground (arith, e');
        all_coded = tt;
        cash_in_sum = rw same (omega arith);
        cash_out_sum = rw same (omega arith);
      },
    )
manual_entries-BecomeAll ledger t (l ∷ ls) {t'} {ins} h =
    elim (Result-cases (manual_entry ledger t l)) [
      | inr (x, bad) ↦ absurd (ground arith)
      | inl ((between, i), first) ↦ elim (Result-cases (manual_entries ledger between ls)) [
        | inr (x, bad) ↦ absurd (ground arith)
        | inl ((after, more), rest) ↦
            let whole : ins ≡ i ∷ more = ground arith in
            let same : t' ≡ after = ground arith in
            let (c, b) =
              manual_entry-Becomes ledger t l.coa_code l.debit l.credit {t' = between} {i = i}
                first in
            let (cs, bs) =
              manual_entries-BecomeAll ledger between ls {t' = after} {ins = more} rest in
            (
              c ∷ cs,
              record {
                only = λ d k d' k' cs' e.
                    let (tail, e', split) =
                      check_lines-cons i c more d k d' k' cs' b.checked (rw whole at e) in
                    split
                    ∙ ap (λ (xs : List CheckedLine). c ∷ xs)
                        (bs.only (d + debit_of c.side c.amount) (k + credit_of c.side c.amount) d'
                          k' tail e');
                all_coded = (b.coded, bs.all_coded);
                cash_in_sum = rw same (omega (arith, b.cash_in_sum, bs.cash_in_sum));
                cash_out_sum = rw same (omega (arith, b.cash_out_sum, bs.cash_out_sum));
              },
            )
      ]
    ]

-- A line with an account keeps it.
post_line-coded :
    (ledger : Ledger) (input : JournalInput) (c : CheckedLine) {l : Line}
    → is_empty c.coa_code ≡ false
    → post_line ledger input c ≡ ok l
    → (l.side ≡ c.side) × (l.coa_code ≡ c.coa_code) × (l.amount ≡ c.amount)
unfolding post_line line_code
post_line-coded ledger input c coded h =
    elim (Result-cases (coa_account_for_posting ledger c.coa_code)) [
      | inr (x, bad) ↦ absurd (ground (arith, coded))
      | inl (a, e) ↦ (ground (arith, coded), ground (arith, coded), ground (arith, coded))
    ]

post_lines_cash :
    (ledger : Ledger) (input : JournalInput) (cs : List CheckedLine) {ls : List Line}
    → AllCoded cs
    → post_lines ledger input cs ≡ ok ls
    → (sum_of (cash_debited ledger.accounts) ls ≡ checked_in ledger cs)
      × (sum_of (cash_credited ledger.accounts) ls ≡ checked_out ledger cs)
unfolding post_lines
post_lines_cash ledger input [] {ls} coded h =
    let done : ls ≡ [] = ground arith in rw done (refl, refl)
post_lines_cash ledger input (c ∷ cs) {ls} coded h =
    elim (Result-cases (post_line ledger input c)) [
      | inr (x, bad) ↦ absurd (ground arith)
      | inl (l, first) ↦ elim (Result-cases (post_lines ledger input cs)) [
        | inr (x, bad) ↦ absurd (ground arith)
        | inl (more, rest) ↦
            let whole : ls ≡ l ∷ more = ground arith in
            let (side, code, amount) = post_line-coded ledger input c {l = l} coded.0 first in
            let (ins, outs) = post_lines_cash ledger input cs {ls = more} coded.1 rest in
            rw (whole, side, code, amount) (omega (arith, ins), omega (arith, outs))
      ]
    ]

-- A journal of the request's lines moves the cash that the loop has summed.
pub manual_lines-moved :
    (ledger : Ledger) (input : JournalInput) (ls : List ManualLine) (d k : ℕ) {t : Sums}
    {ins : List LineInput} {d' k' : ℕ} {cs : List CheckedLine} {posted_lines : List Line}
    → manual_entries ledger
        (record { debits = 0; credits = 0; cash_debits = 0; cash_credits = 0 })
        ls
      ≡ ok (t, ins)
    → check_lines d k ins ≡ ok (cs, d', k')
    → post_lines ledger input cs ≡ ok posted_lines
    → (sum_of (cash_debited ledger.accounts) posted_lines ≡ t.cash_debits)
      × (sum_of (cash_credited ledger.accounts) posted_lines ≡ t.cash_credits)
manual_lines-moved ledger input ls d k {t} {ins} {d'} {k'} {cs} {posted_lines} h checked lined =
    let zeros : Sums = record { debits = 0; credits = 0; cash_debits = 0; cash_credits = 0 } in
    let (cs', b) = manual_entries-BecomeAll ledger zeros ls {t' = t} {ins = ins} h in
    let same = b.only d k d' k' cs checked in
    let lined' : post_lines ledger input cs' ≡ ok posted_lines = rw same at lined in
    let (into, out) = post_lines_cash ledger input cs' {ls = posted_lines} b.all_coded lined' in
    (omega (arith, into, b.cash_in_sum), omega (arith, out, b.cash_out_sum))
