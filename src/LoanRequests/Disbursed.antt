-- ===== src/LoanRequests/Disbursed.antt =====
-- The effect of `disburseLoanRequestByID` of internal/app/loans.go on the tables.
use kopdes.Base.{
  ℕ, ◌<◌, ◌≤◌, ◌≡◌, false, pos, some, ok, arith, inl, inr, Option-cases, Result-cases, positive,
  positive_lem,
}
use kopdes.Base.Text.{Text, trim_space}
use kopdes.Base.Table.{find, update}
use kopdes.Calendar.Text.{parse_loan_date}
use kopdes.Approval.Requests.{User, approved}
use kopdes.LoanRequests.Types.{
  LoanRequest, Desk, LoanDisbursement, key_of_loan_request, key_of_borrower,
  loan_amount_limit_exceeded, not_ready_for_disbursement,
}
use kopdes.LoanRequests.Terms.{check_limit, check_terms}
use kopdes.LoanRequests.Disbursement.{
  disburse_loan_request, disburse_loan, disburse_books, take_payoffs, loans_to_pay_off, new_loan,
  Payoff, has_loan, DisbursableTerms, disbursable_terms, is_settling,
}

-- Terms that passed the guards.
pub record IsDisbursable (r : LoanRequest) (date : Text) (t : DisbursableTerms) : Type 0 where
  pub status : r.status ≡ approved
  pub proposed : r.proposal ≡ some t.proposal
  pub obligation : t.proposal.total_obligation ≡ pos t.obligation
  pub amount : t.proposal.approved_amount ≡ pos t.amount
  pub is_positive : 0 < t.amount
  pub checked : check_terms t.proposal date ≡ ok t.calc

disbursable_terms-IsDisbursable :
    (desk : Desk) (r : LoanRequest) (date : Text) {t : DisbursableTerms}
    → disbursable_terms desk r date ≡ ok t
    → IsDisbursable r date t
unfolding disbursable_terms
disbursable_terms-IsDisbursable desk r date {t} h =
    elim (Option-cases (find key_of_borrower r.member_id desk.members)) [
      | inl missing ↦ absurd (ground arith)
      | inr (member, em) ↦ elim (Option-cases r.proposal) [
        | inl missing ↦ absurd (ground arith)
        | inr (p, ep) ↦
            elim (Result-cases (positive p.approved_amount loan_amount_limit_exceeded)) [
              | inr (x, bad) ↦ absurd (ground arith)
              | inl (n, en) ↦ elim (Result-cases (check_limit desk r member n)) [
                | inr (x, bad) ↦ absurd (ground arith)
                | inl (_, el) ↦
                    elim (Result-cases (positive p.duration_months not_ready_for_disbursement)) [
                      | inr (x, bad) ↦ absurd (ground arith)
                      | inl (m, emo) ↦
                          elim (Result-cases
                            (positive p.total_obligation not_ready_for_disbursement)) [
                              | inr (x, bad) ↦ absurd (ground arith)
                              | inl (o, eo) ↦ elim (Result-cases (check_terms p date)) [
                                | inr (x, bad) ↦ absurd (ground arith)
                                | inl (calc, ec) ↦
                                    let (above, amount) =
                                      positive_lem p.approved_amount loan_amount_limit_exceeded
                                        en in
                                    let owed =
                                      (positive_lem p.total_obligation not_ready_for_disbursement
                                        eo).1 in
                                    let u : DisbursableTerms = record {
                                      proposal = p;
                                      amount = n;
                                      obligation = o;
                                      calc = calc;
                                    } in
                                    let made : u ≡ t = ground arith in
                                    let status : r.status ≡ approved = ground arith in
                                    let before : IsDisbursable r date u = record {
                                      status = status;
                                      proposed = ep;
                                      obligation = owed;
                                      amount = amount;
                                      is_positive = above;
                                      checked = ec;
                                    } in
                                    rw made at before
                              ]
                            ]
                    ]
              ]
            ]
      ]
    ]

-- A disbursement rewrites its request, and the books as the loan and the payoffs ask.
pub record Disburses (desk desk' : Desk) (id loan_id journal_id : Text) (r : LoanRequest)
    : Type 0 where
  pub row : find key_of_loan_request id desk.requests ≡ some r
  pub details : LoanDisbursement
  pub total : ℕ
  pub requests :
      desk'.requests
      ≡ update key_of_loan_request id (disburse_loan details (is_settling r) total) desk.requests
  pub terms : DisbursableTerms
  pub disbursable : IsDisbursable r details.date terms
  pub no_loan : has_loan id desk.books.loans ≡ false
  pub taken : take_payoffs terms.amount 0 (loans_to_pay_off r desk.books.loans) ≡ ok total
  pub enough : terms.amount ≤ terms.obligation
  pub description : Text
  pub by : Payoff
  pub paid :
      disburse_books desk.books
        (new_loan r terms details.date loan_id)
        journal_id
        description
        by
        (loans_to_pay_off r desk.books.loans)
      ≡ ok desk'.books

pub disburse_loan_request-Disburses :
    (desk : Desk) (id : Text) (officer : User)
    (date description note payoff_description loan_id journal_id : Text)
    (fresh : Text → Text × Text) {desk' : Desk}
    → disburse_loan_request desk id officer date description note payoff_description loan_id
        journal_id fresh
      ≡ ok desk'
    → (r : LoanRequest) × Disburses desk desk' id loan_id journal_id r
unfolding disburse_loan_request
disburse_loan_request-Disburses desk id officer date description note payoff_description loan_id
      journal_id fresh {desk'} h =
    let day = trim_space date in
    elim (Option-cases (parse_loan_date day)) [
      | inl missing ↦ absurd (ground arith)
      | inr (d, ed) ↦ elim (Option-cases (find key_of_loan_request id desk.requests)) [
        | inl missing ↦ absurd (ground arith)
        | inr (r, row) ↦ elim (Result-cases (disbursable_terms desk r day)) [
          | inr (x, bad) ↦ absurd (ground arith)
          | inl (t, et) ↦
              let chosen = loans_to_pay_off r desk.books.loans in
              elim (Result-cases (take_payoffs t.amount 0 chosen)) [
                | inr (x, bad) ↦ absurd (ground arith)
                | inl (total, taken) ↦
                    let by : Payoff = record {
                      request_id = id;
                      officer_id = officer.id;
                      date = day;
                      note = note;
                      description = payoff_description;
                      fresh = fresh;
                    } in
                    elim (Result-cases (
                      disburse_books desk.books (new_loan r t day loan_id) journal_id description by
                        chosen)) [
                          | inr (x, bad) ↦ absurd (ground arith)
                          | inl (books, paid) ↦ (
                            r,
                            record {
                              row = row;
                              details = record { date = day; by = officer.id };
                              total = total;
                              requests = ground arith;
                              terms = t;
                              disbursable = disbursable_terms-IsDisbursable desk r day {t = t} et;
                              no_loan = ground arith;
                              taken = taken;
                              enough = ground arith;
                              description = description;
                              by = by;
                              paid =
                                  let same : books ≡ desk'.books = ground arith in rw same at paid;
                            },
                          )
                        ]
              ]
        ]
      ]
    ]
