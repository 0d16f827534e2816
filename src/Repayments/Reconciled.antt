-- ===== src/Repayments/Reconciled.antt =====
-- Corrected and removed repayments against the loans and the ledger
-- (internal/app/repayment_corrections.go).
use kopdes.Base.{
  ℕ, ◌+◌, ◌<◌, ◌≡◌, sym, ap, ◌∙◌, Bool, true, false, not, if◌then◌else◌, Option, none, some, List,
  keep, sum, All, ok, arith, inl, inr, Bool-cases,
}
use kopdes.Base.Text.{Text, text_eq, text_eq→eq, text_eq_sym-false}
use kopdes.Base.Table.{
  find, update, find-key, IsKeyed, IsKeyed-update, sum_of-update, sum_of-keep, All-update,
}
use kopdes.Base.Keyed.{IsKeyed-keep, All-keep, All-map}
use kopdes.Approval.Requests.{User}
use kopdes.Accounting.Exchanged.{arriving}
use kopdes.Repayments.Types.{Loan, Repayment, Books, key_of_loan}
use kopdes.Repayments.Kept.{IsKept, amounts_of}
use kopdes.Repayments.Corrections.{
  CorrectionDesk, CorrectionInput, Fresh, key_of_repayment, corrected, correct_repayment,
  remove_repayment,
}
use kopdes.Repayments.Corrected.{refresh_loan-IsCurrent}
use kopdes.Repayments.Synced.{IsUnused, Synced, removed-Synced, corrected-Synced}
use kopdes.Repayments.Corrects.{Corrects, correct_repayment-Corrects, remove_repayment-Corrects}
use kopdes.Repayments.Mirrored.{IsMirrored, recorded, stands_for, sum-amounts_of}

-- The loans hold the repayments, and the ledger mirrors them.
abbrev pub IsReconciled : Books → Type 0
IsReconciled books = IsKept books × IsMirrored books

-- The new rows of a correction.
record Replaces (rows rows' : List Repayment) (id : Text) (r : Repayment) (new : Option ℕ)
    : Type 0 where
  named : IsKeyed key_of_repayment rows'
  paid_in : All (λ (q : Repayment). 0 < q.amount) rows'
  others :
      (j : Text) → text_eq r.loan_id j ≡ false → sum (amounts_of j rows) ≡ sum (amounts_of j rows')
  sums :
      (m : ℕ → ℕ) (u : Text)
      → recorded m u rows' + (if text_eq r.id u then m r.amount else 0)
        ≡ recorded m u rows + (if text_eq r.id u then arriving m new else 0)

updated-Replaces :
    (rows : List Repayment) (id : Text) (r : Repayment) (req : CorrectionInput) (n : ℕ)
    → find key_of_repayment id rows ≡ some r
    → 0 < n
    → IsKeyed key_of_repayment rows
    → All (λ (q : Repayment). 0 < q.amount) rows
    → Replaces rows (update key_of_repayment id (λ _. corrected req n r) rows) id r (some n)
updated-Replaces rows id r req n row z keyed paid =
    let r' = corrected req n r in
    let named : r.id ≡ id = text_eq→eq r.id id (find-key key_of_repayment id rows row) in
    record {
      named =
          IsKeyed-update key_of_repayment id (λ _. r') rows
            (λ q at_id. named ∙ sym (text_eq→eq q.id id at_id)) keyed;
      paid_in = All-update key_of_repayment _ id (λ _. r') rows row paid z;
      others = λ j other.
          let total =
            sum_of-update key_of_repayment
              (λ (q : Repayment). if text_eq q.loan_id j then q.amount else 0) id (λ _. r') rows
              row in
          let total' = rw other at total in
          omega (
            arith,
            total',
            sum-amounts_of j rows,
            sum-amounts_of j (update key_of_repayment id (λ _. r') rows),
          );
      sums = λ m u.
          sum_of-update key_of_repayment
            (λ (q : Repayment). if text_eq q.id u then m q.amount else 0) id (λ _. r') rows row;
    }

kept-Replaces :
    (rows : List Repayment) (id : Text) (r : Repayment)
    → find key_of_repayment id rows ≡ some r
    → IsKeyed key_of_repayment rows
    → All (λ (q : Repayment). 0 < q.amount) rows
    → Replaces rows (keep (λ (q : Repayment). not (text_eq q.id id)) rows) id r none
kept-Replaces rows id r row keyed paid =
    let test = λ (q : Repayment). not (text_eq q.id id) in
    record {
      named = IsKeyed-keep key_of_repayment test rows keyed;
      paid_in = All-map _ _ (keep test rows) (λ q h. h.0) (All-keep _ test rows paid);
      others = λ j other.
          let total =
            sum_of-keep key_of_repayment
              (λ (q : Repayment). if text_eq q.loan_id j then q.amount else 0) id rows row keyed in
          let total' = rw other at total in
          omega (arith, total', sum-amounts_of j rows, sum-amounts_of j (keep test rows));
      sums = λ m u.
          let total =
            sum_of-keep key_of_repayment
              (λ (q : Repayment). if text_eq q.id u then m q.amount else 0) id rows row keyed in
          elim (Bool-cases (text_eq r.id u)) [
            | inl here ↦ rw here (omega (arith, rw here at total))
            | inr other ↦ rw other (omega (arith, rw other at total))
          ];
    }

-- From the rows and the ledger to the books.
module _ (desk desk' : CorrectionDesk) (actor_id id : Text) (r after : Repayment) (loan : Loan)
    (rows : List Repayment) (removing : Bool) (fresh : Fresh)
    (w : Corrects desk desk' actor_id id r after loan rows removing fresh) (new : Option ℕ)
    (c : Replaces desk.books.repayments rows id r new) (old : ℕ) (same : old ≡ r.amount)
    (s : Synced desk.books.ledger.entries desk'.books.ledger.entries r.id old new) where
  rewritten-IsKept : IsKept desk.books → IsKept desk'.books
  rewritten-IsKept k =
      let named : loan.id ≡ r.loan_id =
        text_eq→eq loan.id r.loan_id (find-key key_of_loan r.loan_id desk.books.loans w.loan_row) in
      let (keyed, current) =
        refresh_loan-IsCurrent loan r.member_id desk.books.loans desk.books.repayments rows
          {loans' = desk'.books.loans} w.loans
          (ap (λ (t : Text). find key_of_loan t desk.books.loans) named ∙ w.loan_row)
          (λ j other. c.others j (text_eq_sym-false j r.loan_id (rw named at other))) c.paid_in
          k.keyed k.current in
      record {
        keyed = keyed;
        current = rw w.repayments current;
        paid_in = rw w.repayments c.paid_in;
        balanced = s.0.balanced;
      }

  rewritten-IsMirrored : IsMirrored desk.books → IsMirrored desk'.books
  rewritten-IsMirrored v = record {
    named = rw w.repayments c.named;
    ordered = s.0;
    mirrored = λ m u.
        let moved = rw same at (s.1.sums m u) in
        rw w.repayments (omega (arith, moved, c.sums m u, v.mirrored m u));
  }

-- Correcting a repayment on books that agree, with identifiers not in use for the new journals,
-- leaves books that agree: every loan holds exactly the repayments recorded for it, every journal
-- balances, and the entries that stand in the ledger for repayments are one for each, of its amount.
pub correct_repayment-IsReconciled :
    (desk : CorrectionDesk) (actor : User) (id : Text) (req : CorrectionInput) (fresh : Fresh)
    {desk' : CorrectionDesk}
    → correct_repayment desk actor id req fresh ≡ ok desk'
    → IsUnused fresh desk.books.ledger.entries
    → IsReconciled desk.books
    → IsReconciled desk'.books
correct_repayment-IsReconciled desk actor id req fresh {desk'} h unused (k, v) =
    let (r, loan, n, z, w) = correct_repayment-Corrects desk actor id req fresh {desk' = desk'} h in
    let rows = desk.books.repayments in
    let named : r.id ≡ id = text_eq→eq r.id id (find-key key_of_repayment id rows w.row) in
    let row' = ap (λ (t : Text). find key_of_repayment t rows) named ∙ w.row in
    let (e, chosen, same) = stands_for desk.books v r.id r row' in
    let c = updated-Replaces rows id r req n w.row z v.named k.paid_in in
    let s =
      corrected-Synced desk.books.ledger desk.transaction_audits actor.id (corrected req n r)
        loan.loan_type fresh v.ordered unused e chosen desk'.books.ledger desk'.transaction_audits z
        w.ledger in
    (
      rewritten-IsKept desk desk' actor.id id r (corrected req n r) loan _ false fresh w (some n) c
          e.amount same s k,
      rewritten-IsMirrored desk desk' actor.id id r (corrected req n r) loan _ false fresh w
          (some n) c e.amount same s v,
    )

-- Removing a repayment does so too; no entry then stands for it.
pub remove_repayment-IsReconciled :
    (desk : CorrectionDesk) (actor : User) (id text : Text) (fresh : Fresh) {desk' : CorrectionDesk}
    → remove_repayment desk actor id text fresh ≡ ok desk'
    → IsUnused fresh desk.books.ledger.entries
    → IsReconciled desk.books
    → IsReconciled desk'.books
remove_repayment-IsReconciled desk actor id text fresh {desk'} h unused (k, v) =
    let (r, loan, w) = remove_repayment-Corrects desk actor id text fresh {desk' = desk'} h in
    let rows = desk.books.repayments in
    let named : r.id ≡ id = text_eq→eq r.id id (find-key key_of_repayment id rows w.row) in
    let row' = ap (λ (t : Text). find key_of_repayment t rows) named ∙ w.row in
    let (e, chosen, same) = stands_for desk.books v r.id r row' in
    let c = kept-Replaces rows id r w.row v.named k.paid_in in
    let s =
      removed-Synced desk.books.ledger desk.transaction_audits actor.id r loan.loan_type fresh
        v.ordered unused e chosen desk'.books.ledger desk'.transaction_audits w.ledger in
    (
      rewritten-IsKept desk desk' actor.id id r r loan _ true fresh w none c e.amount same s k,
      rewritten-IsMirrored desk desk' actor.id id r r loan _ true fresh w none c e.amount same s v,
    )
