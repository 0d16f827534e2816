-- ===== src/Repayments/Mirrored.antt =====
-- The ledger as a mirror of the repayments, through corrections and removals
-- (internal/app/repayment_corrections.go).
use kopdes.Base.{
  ℕ, ◌≡◌, refl, ◌∙◌, true, not, if◌then◌else◌, Option, some, List, [], ◌∷◌, keep, sum, sum_of,
  arith,
}
use kopdes.Base.Text.{Text, text_eq}
use kopdes.Base.Table.{find, find-key, IsKeyed, sum_of-keep}
use kopdes.Accounting.Types.{Entry}
use kopdes.Accounting.Reversal.{last_of, is_live}
use kopdes.Accounting.Live.{live_sum}
use kopdes.Accounting.Standing.{IsOrdered}
use kopdes.Accounting.Sole.{live_sum_sole}
use kopdes.Repayments.Types.{Repayment, Books}
use kopdes.Repayments.Kept.{amounts_of}
use kopdes.Repayments.Corrections.{key_of_repayment}
use kopdes.Repayments.Synced.{repayment_type}

-- The measures of the amounts recorded under an identifier, summed.
abbrev pub recorded : (ℕ → ℕ) → Text → List Repayment → ℕ
recorded m t = sum_of (λ (r : Repayment). if text_eq r.id t then m r.amount else 0)

-- Repayments have unique identifiers, and for each the entries that stand in the ledger have its
-- amount, once, and for no other transaction does a repayment's entry stand.
pub record IsMirrored (books : Books) : Type 0 where
  pub named : IsKeyed key_of_repayment books.repayments
  pub ordered : IsOrdered repayment_type books.ledger.entries
  pub mirrored :
      (m : ℕ → ℕ) (t : Text)
      → live_sum m t repayment_type books.ledger.entries ≡ recorded m t books.repayments

recorded_else :
    (m : ℕ → ℕ) (id : Text) (rs : List Repayment)
    → recorded m id (keep (λ (q : Repayment). not (text_eq q.id id)) rs) ≡ 0
recorded_else m id [] = refl
recorded_else m id (r ∷ rs) = ground (arith, recorded_else m id rs)

recorded_own :
    (m : ℕ → ℕ) (id : Text) (rs : List Repayment) {r : Repayment}
    → find key_of_repayment id rs ≡ some r
    → IsKeyed key_of_repayment rs
    → recorded m id rs ≡ m r.amount
recorded_own m id rs {r} row keyed =
    let whole =
      sum_of-keep key_of_repayment (λ (q : Repayment). if text_eq q.id id then m q.amount else 0) id
        rs row keyed in
    let mine : text_eq r.id id ≡ true = find-key key_of_repayment id rs row in
    ground (arith, whole, mine, recorded_else m id rs)

-- The entry that stands for a repayment exists and has its amount.
module _ (books : Books) (v : IsMirrored books) (id : Text) (r : Repayment)
    (row : find key_of_repayment id books.repayments ≡ some r) where
  abbrev pub chosen : Option Entry
  chosen = last_of (is_live id repayment_type books.ledger.entries) books.ledger.entries

  pub stands_for : (e : Entry) × (chosen ≡ some e) × (e.amount ≡ r.amount)
  stands_for =
      live_sum_sole repayment_type id books.ledger.entries r.amount v.ordered.entered
        (λ m. v.mirrored m id ∙ recorded_own m id books.repayments row v.named)

-- The totals of the loans.
pub sum-amounts_of :
    (j : Text) (rs : List Repayment)
    → sum (amounts_of j rs)
      ≡ sum_of (λ (r : Repayment). if text_eq r.loan_id j then r.amount else 0) rs
sum-amounts_of j [] = refl
sum-amounts_of j (r ∷ rs) = ground (arith, sum-amounts_of j rs)
