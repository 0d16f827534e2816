-- ===== src/LoanRequests/Approvals.antt =====
-- The effect of an approval of a loan request, an officer's (internal/app/loans.go) or the super
-- admin's (internal/app/super_admin_overrides.go).
use kopdes.Base.{
  positive, ap, ◌&&◌, ℕ, ◌≡◌, refl, sym, ◌∙◌, true, false, Bool, if◌then◌else◌, Option, none, some,
  ok, arith, inl, inr, Option-cases, Result-cases,
}
use kopdes.Base.Text.{Text}
use kopdes.Base.Table.{find, update}
use kopdes.Approval.{
  Stage, manager_stage, same_stage, approval_stage_for_officer, next_loan_approval_stage_for_amount,
}
use kopdes.Approval.Requests.{User, is_pending, is_pending→eq, is_some, Notice, terms_changed}
use kopdes.LoanRequests.Types.{
  LoanRequest, Proposal, Desk, key_of_loan_request, key_of_borrower, invalid_loan_approval,
}
use kopdes.LoanRequests.Terms.{schedule_terms, check_complete, check_limit, check_terms}
use kopdes.LoanRequests.Decisions.{
  ApproveLoanInput, propose_loan, approve_loan_request, decide_proposed, after_loan_approval,
  advance_loan, approve_loan, decided_loan, notify_if, has_changed,
}
use kopdes.LoanRequests.Overrides.{
  override_loan_request, overridden_terms, settle_terms, overridden_amount, overridden_duration,
}
use kopdes.Schedule.Terms.{LoanScheduleCalculation}
use kopdes.LoanRequests.Backed.{IsBacked, check_terms-parts, schedule_terms-IsBacked}
use kopdes.LoanRequests.Invariant.{
  was_pending, AllBacked, IsWaiting, IsFit, advance_loan-IsFit, approve_loan-IsFit, is_late-next,
}
use kopdes.LoanRequests.Effects.{Moves, Moves-rewritten}

-- A row with the manager's terms.
record Proposes (r q : LoanRequest) : Type 0 where
  pub id : q.id ≡ r.id
  pub status : q.status ≡ r.status
  pub stage : q.stage ≡ r.stage
  pub disbursement : q.disbursement ≡ r.disbursement
  pub has_terms : is_some q.proposal ≡ true
  pub backed : AllBacked q.proposal

propose_loan-Proposes :
    (desk : Desk) (r : LoanRequest) (req : ApproveLoanInput) (today : Text) {q : LoanRequest}
    → propose_loan desk r req today ≡ ok q
    → Proposes r q
unfolding propose_loan
propose_loan-Proposes desk r req today {q} h =
    elim (Result-cases (positive req.approved_amount invalid_loan_approval)) [
      | inr (x, bad) ↦ absurd (ground arith)
      | inl (n, en) ↦ elim (Result-cases (positive req.duration_months invalid_loan_approval)) [
        | inr (x, bad) ↦ absurd (ground arith)
        | inl (m, em) ↦ elim (Option-cases (find key_of_borrower r.member_id desk.members)) [
          | inl missing ↦ absurd (ground arith)
          | inr (member, em') ↦ elim (Result-cases (check_limit desk r member n)) [
            | inr (x, bad) ↦ absurd (ground arith)
            | inl (_, el) ↦
                elim (Result-cases (
                  schedule_terms r.loan_type r.requested_admin_fee req.approved_amount
                    req.duration_months today)) [
                      | inr (x, bad) ↦ absurd (ground arith)
                      | inl (p, ep) ↦
                          let terms : q.proposal ≡ some p = ground arith in
                          record {
                            id = ground arith;
                            status = ground arith;
                            stage = ground arith;
                            disbursement = ground arith;
                            has_terms = rw terms refl;
                            backed = rw terms (
                                schedule_terms-IsBacked r.loan_type r.requested_admin_fee
                                  req.approved_amount req.duration_months today {p = p} ep);
                          }
                    ]
          ]
        ]
      ]
    ]

Proposes-stage : (r q : LoanRequest) → Proposes r q → IsWaiting r → IsWaiting q
Proposes-stage r q p (inl at_manager) = inl (p.stage ∙ at_manager)
Proposes-stage r q p (inr (s, at_s, late, _)) = inr (s, p.stage ∙ at_s, late, p.has_terms)

Proposes-IsFit : (r q : LoanRequest) → is_pending r.status ≡ true → Proposes r q → IsFit r → IsFit q
Proposes-IsFit r q e p h = record {
  backed = p.backed;
  standing =
      let before = was_pending r e h in
      rw (p.status, is_pending→eq r.status e)
        (Proposes-stage r q p before.0, rw p.disbursement before.1);
}

-- After a decision: a row with terms moves on.
record MovesOn (desk desk' : Desk) (id : Text) (q : LoanRequest) : Type 0 where
  pub row : LoanRequest
  pub requests : desk'.requests ≡ update key_of_loan_request id (λ _. row) desk.requests
  pub books : desk'.books ≡ desk.books
  pub same : row.id ≡ q.id
  pub fit : IsFit q → IsFit row

after_loan_approval-MovesOn :
    (desk base : Desk) (id : Text) (q : LoanRequest) (p : Proposal) (stage : Stage) (amount : ℕ)
    (by : Text) (next : Option Stage) {desk' : Desk}
    → desk.requests ≡ base.requests
    → desk.books ≡ base.books
    → next_loan_approval_stage_for_amount stage amount ≡ next
    → is_pending q.status ≡ true
    → q.proposal ≡ some p
    → after_loan_approval desk id q p amount by next ≡ ok desk'
    → MovesOn base desk' id q
unfolding after_loan_approval
after_loan_approval-MovesOn desk base id q p stage amount by (some next) {desk'} rs bs n e t h =
    record {
      row = advance_loan next q;
      requests = ground arith;
      books = ground arith;
      same = refl;
      fit = advance_loan-IsFit next q (is_late-next stage amount n) e (rw t refl);
    }
after_loan_approval-MovesOn desk base id q p stage amount by none {desk'} rs bs n e t h = record {
  row = approve_loan by q;
  requests = ground arith;
  books = ground arith;
  same = refl;
  fit = λ f. approve_loan-IsFit by q (rw t refl) f.backed;
}

notify_if-requests :
    (b : Bool) (id : Text) (n : Notice) (desk : Desk)
    → (notify_if b id n desk).requests ≡ desk.requests
notify_if-requests b id n desk = ground arith

notify_if-books :
    (b : Bool) (id : Text) (n : Notice) (desk : Desk) → (notify_if b id n desk).books ≡ desk.books
notify_if-books b id n desk = ground arith

decide_proposed-MovesOn :
    (desk : Desk) (id : Text) (r : LoanRequest) (officer : User) (stage : Stage) (q : LoanRequest)
    {desk' : Desk}
    → decide_proposed desk id r officer stage q ≡ ok desk'
    → is_pending q.status ≡ true
    → MovesOn desk desk' id q
unfolding decide_proposed
decide_proposed-MovesOn desk id r officer stage q {desk'} h e = elim (Option-cases q.proposal) [
  | inl missing ↦ absurd (ground arith)
  | inr (p, ep) ↦ elim (Result-cases (check_complete p)) [
    | inr (x, bad) ↦ absurd (ground arith)
    | inl (amount, ec) ↦
        let tells = same_stage stage manager_stage && has_changed r p in
        let after = decided_loan desk id r.stage officer.id true false in
        after_loan_approval-MovesOn (notify_if tells id terms_changed after) desk id q p stage
          amount officer.id (next_loan_approval_stage_for_amount stage amount)
          (notify_if-requests tells id terms_changed after)
          (notify_if-books tells id terms_changed after) refl e ep (ground arith)
  ]
]

-- The row that is decided on: with the manager's terms, or as it is.
proposed-IsFit :
    (desk : Desk) (r q : LoanRequest) (req : ApproveLoanInput) (today : Text) (proposes : Bool)
    → is_pending r.status ≡ true
    → (if proposes then propose_loan desk r req today else ok r) ≡ ok q
    → (q.id ≡ r.id) × (is_pending q.status ≡ true) × (IsFit r → IsFit q)
proposed-IsFit desk r q req today true e h =
    let p = propose_loan-Proposes desk r req today {q = q} h in
    (p.id, rw p.status e, Proposes-IsFit r q e p)
proposed-IsFit desk r q req today false e h =
    let same : r ≡ q = ground arith in
    (ap (λ (t : LoanRequest). t.id) (sym same), rw same at e, λ fit. rw same at fit)

pub approve_loan_request-Moves :
    (desk : Desk) (id : Text) (officer : User) (req : ApproveLoanInput) (today : Text)
    {desk' : Desk}
    → approve_loan_request desk id officer req today ≡ ok desk'
    → (r : LoanRequest) × (r' : LoanRequest) × Moves desk desk' id r r'
unfolding approve_loan_request
approve_loan_request-Moves desk id officer req today {desk'} h =
    elim (Option-cases (find key_of_loan_request id desk.requests)) [
      | inl missing ↦ absurd (ground arith)
      | inr (r, row) ↦
          let stage = approval_stage_for_officer officer.role in
          let proposes = same_stage stage manager_stage in
          elim (Result-cases (if proposes then propose_loan desk r req today else ok r)) [
            | inr (x, bad) ↦ absurd (ground arith)
            | inl (q, eq) ↦
                let (same, waits, fit) =
                  proposed-IsFit desk r q req today proposes (ground arith) eq in
                let on =
                  decide_proposed-MovesOn desk id r officer stage q {desk' = desk'} (ground arith)
                    waits in
                (
                  r,
                  on.row,
                  record {
                    row = row;
                    requests = on.requests;
                    books = on.books;
                    same = on.same ∙ same;
                    fit = λ f. on.fit (fit f);
                  },
                )
          ]
    ]

-- The proposal that passed the checks is backed by them.
check_terms-IsBacked :
    (p : Proposal) {s : LoanScheduleCalculation} → check_terms p p.start_date ≡ ok s → IsBacked p
check_terms-IsBacked p {s} h =
    let (snapshot, rebuilt) = check_terms-parts p p.start_date {s = s} h in
    record { snapshot = snapshot; schedule = s; rebuilt = rebuilt }

overridden_terms-IsBacked :
    (desk : Desk) (r : LoanRequest) (req : ApproveLoanInput) (today : Text) {p : Proposal}
    → overridden_terms desk r req today ≡ ok p
    → IsBacked p
unfolding overridden_terms
overridden_terms-IsBacked desk r req today {p} h =
    let amount = overridden_amount r req in
    let duration = overridden_duration r req in
    elim (Result-cases (positive amount invalid_loan_approval)) [
      | inr (x, bad) ↦ absurd (ground arith)
      | inl (n, en) ↦ elim (Result-cases (positive duration invalid_loan_approval)) [
        | inr (x, bad) ↦ absurd (ground arith)
        | inl (m, em) ↦ elim (Option-cases (find key_of_borrower r.member_id desk.members)) [
          | inl missing ↦ absurd (ground arith)
          | inr (member, ef) ↦ elim (Result-cases (check_limit desk r member n)) [
            | inr (x, bad) ↦ absurd (ground arith)
            | inl (_, el) ↦ elim (Result-cases (settle_terms r req amount duration today)) [
              | inr (x, bad) ↦ absurd (ground arith)
              | inl (q, eq) ↦ elim (Result-cases (check_complete q)) [
                | inr (x, bad) ↦ absurd (ground arith)
                | inl (k, ek) ↦ elim (Result-cases (check_terms q q.start_date)) [
                  | inr (x, bad) ↦ absurd (ground arith)
                  | inl (s, es) ↦
                      let same : q ≡ p = ground arith in rw same at (check_terms-IsBacked q es)
                ]
              ]
            ]
          ]
        ]
      ]
    ]

pub override_loan_request-Moves :
    (desk : Desk) (id : Text) (actor : User) (req : ApproveLoanInput) (today : Text) {desk' : Desk}
    → override_loan_request desk id actor req today ≡ ok desk'
    → (r : LoanRequest) × (r' : LoanRequest) × Moves desk desk' id r r'
unfolding override_loan_request
override_loan_request-Moves desk id actor req today {desk'} h =
    elim (Option-cases (find key_of_loan_request id desk.requests)) [
      | inl missing ↦ absurd (ground arith)
      | inr (r, row) ↦ elim (Result-cases (overridden_terms desk r req today)) [
        | inr (x, bad) ↦ absurd (ground arith)
        | inl (p, e) ↦
            let r' = approve_loan actor.id (record r { proposal = some p }) in
            (
              r,
              r',
              Moves-rewritten desk desk' id r (λ _. r') row (ground arith) (ground arith) refl
                  (λ _.
                    approve_loan-IsFit actor.id (record r { proposal = some p }) refl
                      (overridden_terms-IsBacked desk r req today {p = p} e)),
            )
      ]
    ]
