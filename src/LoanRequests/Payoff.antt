-- ===== src/LoanRequests/Payoff.antt =====
-- The payoffs of a disbursement: internal/app/loans.go against internal/app/repayments.go.
use kopdes.Base.{
  positive-pos, ℕ, ◌<◌, ◌≡◌, refl, sym, ap, ◌∙◌, true, false, none, some, List, [], ◌∷◌, ◌++◌, ok,
  err, arith, inl, inr, ◌⊎◌, Result-cases, Option-cases, All,
}
use kopdes.Base.Text.{
  Text, is_empty, trim_space, text_eq, text_eq→eq, text_eq_refl, text_eq_sym-false,
}
use kopdes.Base.Table.{find, update, IsKeyed, find-update, All-find, All-other, All-carry}
use kopdes.Base.Keyed.{find-update_other, find-cons_none}
use kopdes.Accounting.Types.{JournalError}
use kopdes.Accounting.Journal.{create_financial_journal}
use kopdes.Repayments.Types.{
  Loan, Books, journal_failed, invalid_repayment, next_due, paid, key_of_loan, is_running,
}
use kopdes.Allocation.{post_payment, unpaid_rows}
use kopdes.Repayments.Posting.{pay_loan, record_repayment, new_repayment, repayment_journal}
use kopdes.Repayments.Current.{IsCurrent, pay_loan-IsCurrent}
use kopdes.Repayments.Kept.{pay_loan-guards, IsKept, amounts_of, record_repayment-IsKept}
use kopdes.LoanRequests.Types.{payoff_failed}
use kopdes.LoanRequests.Disbursement.{Payoff, payoff_input, pay_off}

-- A loan of the books that a payoff can pay.
abbrev pub IsOpen : List Loan → Loan → Type 0
IsOpen loans l =
    (find key_of_loan l.id loans ≡ some l)
    × (is_running l.status ≡ true)
    × (0 < l.remaining_balance)

abbrev pub IsSettled : List Loan → Loan → Type 0
IsSettled loans l =
    (l' : Loan) × (find key_of_loan l.id loans ≡ some l')
    × (l'.status ≡ paid)
    × (l'.remaining_balance ≡ 0)

pay_loan-last_part :
    (loan : Loan) (n : ℕ) {loan' : Loan}
    → pay_loan loan n ≡ ok loan'
    → n ≡ loan.remaining_balance
    → (loan'.status ≡ paid) × (loan'.remaining_balance ≡ 0)
unfolding pay_loan
pay_loan-last_part loan n {loan'} h e =
    elim (Option-cases
      (next_due (post_payment n (unpaid_rows loan.installments) loan.installments).0)) [
        | inl missing ↦ (ground arith, ground arith)
        | inr (d, due) ↦ (ground arith, ground arith)
      ]

no_text : is_empty (trim_space []) ≡ true
unfolding trim_space
no_text = refl

-- A payment of the whole balance pays a loan that agrees with its payments.
pay_loan-whole :
    (l : Loan) (amounts : List ℕ)
    → IsCurrent l amounts
    → is_running l.status ≡ true
    → 0 < l.remaining_balance
    → (l' : Loan) × (pay_loan l l.remaining_balance ≡ ok l')
      × (l'.id ≡ l.id)
      × (l'.status ≡ paid)
      × (l'.remaining_balance ≡ 0)
pay_loan-whole l amounts c run p =
    let (l', done, after) =
      pay_loan-IsCurrent l amounts l.remaining_balance c run p (omega arith) in
    let (st, zero) = pay_loan-last_part l l.remaining_balance {loan' = l'} done refl in
    (l', done, (pay_loan-guards l l.remaining_balance {loan' = l'} done).2, st, zero)

-- What a payoff of one loan gives: a journal error, or the loan paid in its row.
record_payoff :
    (books : Books) (by : Payoff) (l : Loan)
    → is_empty (trim_space by.date) ≡ false
    → IsKept books
    → IsOpen books.loans l
    → ((j : JournalError) × (record_repayment books l.id by.officer_id
            (payoff_input by.request_id by.date by.note l)
            []
            by.description
            (by.fresh l.id).0
            (by.fresh l.id).1
          ≡ err (journal_failed j)))
      ⊎ ((books' : Books) × (record_repayment books l.id by.officer_id
              (payoff_input by.request_id by.date by.note l)
              []
              by.description
              (by.fresh l.id).0
              (by.fresh l.id).1
            ≡ ok books')
          × (l' : Loan) × (books'.loans ≡ update key_of_loan l.id (λ _. l') books.loans)
          × (l'.id ≡ l.id)
          × (l'.status ≡ paid)
          × (l'.remaining_balance ≡ 0))
unfolding record_repayment
record_payoff books by l dated k open_loan =
    let (row, run, above) = open_loan in
    let current = All-find key_of_loan _ l.id books.loans row k.current in
    let (l', done, id, st, zero) =
      pay_loan-whole l (amounts_of l.id books.repayments) current run above in
    let req = payoff_input by.request_id by.date by.note l in
    let r = new_repayment l l.id by.officer_id req l.remaining_balance (by.fresh l.id).0 in
    let journal = repayment_journal r l.loan_type [] by.description in
    elim (Result-cases (create_financial_journal books.ledger journal (by.fresh l.id).1)) [
      | inr (j, bad) ↦ inl (
        j,
        rw
            (
              no_text,
              positive-pos l.remaining_balance invalid_repayment above,
              dated,
              row,
              done,
              bad,
            )
            refl,
      )
      | inl (ledger, posted) ↦ inr (
        record books {
          loans = update key_of_loan l.id (λ _. l') books.loans;
          repayments = books.repayments ++ r ∷ [];
          ledger = ledger;
        },
        rw
            (
              no_text,
              positive-pos l.remaining_balance invalid_repayment above,
              dated,
              row,
              done,
              posted,
            )
            refl,
        l',
        refl,
        id,
        st,
        zero,
      )
    ]

-- What the payoffs give: an error of a journal, or every one of the loans paid, and no other row
-- changed.
pub record PaysOff (loans : List Loan) (books' : Books) (chosen : List Loan) : Type 0 where
  pub settled : All (IsSettled books'.loans) chosen
  pub frame :
      (id : Text)
      → find key_of_loan id chosen ≡ none
      → find key_of_loan id books'.loans ≡ find key_of_loan id loans

-- The rows under other keys, after one payoff.
elsewhere :
    (loans next : List Loan) (l l' : Loan) (j : Text)
    → next ≡ update key_of_loan l.id (λ _. l') loans
    → l'.id ≡ l.id
    → text_eq l.id j ≡ false
    → find key_of_loan j next ≡ find key_of_loan j loans
elsewhere loans next l l' j e id other =
    ap (find key_of_loan j) e
    ∙ find-update_other key_of_loan j l.id (λ _. l') loans other
        (λ q here. id ∙ sym (text_eq→eq q.id l.id here))

PaysOff-cons :
    (loans : List Loan) (next books' : Books) (l l' : Loan) (rest : List Loan)
    → next.loans ≡ update key_of_loan l.id (λ _. l') loans
    → l'.id ≡ l.id
    → l'.status ≡ paid
    → l'.remaining_balance ≡ 0
    → find key_of_loan l.id loans ≡ some l
    → find key_of_loan l.id rest ≡ none
    → PaysOff next.loans books' rest
    → PaysOff loans books' (l ∷ rest)
PaysOff-cons loans next books' l l' rest e id st zero row alone w = record {
  settled = (
    (
      l',
      w.frame l.id alone
          ∙ ap (find key_of_loan l.id) e
          ∙ find-update key_of_loan l.id (λ _. l') loans row (rw id (text_eq_refl l.id)),
      st,
      zero,
    ),
    w.settled,
  );
  frame = λ j h.
      let (other, none_left) = find-cons_none key_of_loan j l rest h in
      w.frame j none_left ∙ elsewhere loans next.loans l l' j e id other;
}

pub pay_off-cases :
    (books : Books) (by : Payoff) (chosen : List Loan)
    → is_empty (trim_space by.date) ≡ false
    → IsKept books
    → All (IsOpen books.loans) chosen
    → IsKeyed key_of_loan chosen
    → ((j : JournalError) × (pay_off books by chosen ≡ err (payoff_failed (journal_failed j))))
      ⊎ ((books' : Books) × (pay_off books by chosen ≡ ok books')
          × PaysOff books.loans books' chosen)
unfolding pay_off
pay_off-cases books by [] dated k opens keyed =
    inr (books, refl, record { settled = tt; frame = λ id h. refl })
pay_off-cases books by (l ∷ rest) dated k opens keyed =
    elim (record_payoff books by l dated k opens.0) [
      | inl (j, bad) ↦ inl (j, rw bad refl)
      | inr (next, done, l', loans, id, st, zero) ↦
          let kept =
            record_repayment-IsKept books l.id by.officer_id
              (payoff_input by.request_id by.date by.note l) [] by.description (by.fresh l.id).0
              (by.fresh l.id).1 done k in
          let others = All-other key_of_loan l.id rest keyed.0 in
          let still =
            All-carry key_of_loan (IsOpen books.loans) (IsOpen next.loans) l.id rest
              (λ b other o. (
                elsewhere books.loans next.loans l l' b.id loans id
                      (text_eq_sym-false b.id l.id other)
                    ∙ o.0,
                o.1,
                o.2,
              ))
              others opens.1 in
          elim (pay_off-cases next by rest dated kept still keyed.1) [
            | inl (j, bad) ↦ inl (j, rw (done, bad) refl)
            | inr (books', all_done, w) ↦ inr (
              books',
              rw (done, all_done) refl,
              PaysOff-cons books.loans next books' l l' rest loans id st zero opens.0.0 keyed.0 w,
            )
          ]
    ]
