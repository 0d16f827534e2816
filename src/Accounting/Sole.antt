-- ===== src/Accounting/Sole.antt =====
-- A transaction for which one entry stands (internal/app/accounting.go).
use kopdes.Base.{ℕ, ◌≡◌, ◌==◌, if◌then◌else◌, some, List, arith, inl, inr, Option-cases}
use kopdes.Base.Text.{Text}
use kopdes.Base.Table.{IsKeyed}
use kopdes.Accounting.Types.{Entry}
use kopdes.Accounting.Reversal.{key_of_entry, last_of, is_live}
use kopdes.Accounting.Live.{live_sum, live_sum-none, live_sum_own, last_of-Stands}

-- Where every measure of the live amounts is that of one number, an entry stands, of that amount.
pub live_sum_sole :
    (type t : Text) (es : List Entry) (n : ℕ)
    → IsKeyed key_of_entry es
    → ((m : ℕ → ℕ) → live_sum m t type es ≡ m n)
    → (e : Entry) × (last_of (is_live t type es) es ≡ some e) × (e.amount ≡ n)
live_sum_sole type t es n keyed sums = elim (Option-cases (last_of (is_live t type es) es)) [
  | inl missing ↦
      let nothing = live_sum-none (λ _. 1) type es t missing in
      absurd (omega (arith, nothing, sums (λ _. 1)))
  | inr (e, found) ↦
      let m : ℕ → ℕ = λ n. if n == e.amount then 1 else 0 in
      let s = last_of-Stands t type es {e = e} keyed found in
      let least = live_sum_own m type es t e s keyed in (e, found, ground (arith, least, sums m))
]
