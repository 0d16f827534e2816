-- ===== src/Savings/Booked.antt =====
-- The ledger as a mirror of the deposits, and what a correction and a removal do to it
-- (internal/app/saving_corrections.go).
use kopdes.Base.{
  ℕ, ◌+◌, ◌≡◌, refl, ◌&&◌, not, true, if◌then◌else◌, Option, some, List, [], ◌∷◌, keep, sum_of,
  arith,
}
use kopdes.Base.Text.{Text, text_eq, text_eq→eq}
use kopdes.Base.Table.{find, find-key, IsKeyed, sum_of-keep}
use kopdes.Accounting.Types.{Entry}
use kopdes.Accounting.Reversal.{last_of, is_live}
use kopdes.Accounting.Live.{live_sum}
use kopdes.Accounting.Standing.{IsOrdered}
use kopdes.Accounting.Exchanged.{arriving}
use kopdes.Accounting.Sole.{live_sum_sole}
use kopdes.Accounting.Topmost.{IsTop}
use kopdes.Withdrawals.Types.{Db}
use kopdes.Savings.{SavingRecord}
use kopdes.Savings.Corrections.{key_of_saving, is_deposit}
use kopdes.Savings.Entered.{savings_type}
use kopdes.Savings.Synced.{Synced}

-- The measure of the deposits under an identifier.
abbrev pub deposited : (ℕ → ℕ) → Text → SavingRecord → ℕ
deposited m t r = if text_eq r.id t && is_deposit r.saving_type then m r.amount else 0

-- Records have unique identifiers, and for each deposit the entries that stand in the ledger have its
-- amount, once, no other deposit's entry stands, and none that stands is hidden by a later one.
pub record IsBooked (db : Db) : Type 0 where
  pub named : IsKeyed key_of_saving db.savings
  pub ordered : IsOrdered savings_type db.ledger.entries
  pub top : IsTop savings_type db.ledger.entries
  pub mirrored :
      (m : ℕ → ℕ) (t : Text)
      → live_sum m t savings_type db.ledger.entries ≡ sum_of (deposited m t) db.savings

deposited_else :
    (m : ℕ → ℕ) (id : Text) (rs : List SavingRecord)
    → sum_of (deposited m id) (keep (λ (q : SavingRecord). not (text_eq q.id id)) rs) ≡ 0
deposited_else m id [] = refl
deposited_else m id (r ∷ rs) = ground (arith, deposited_else m id rs)

-- One entry stands for a deposit, and has its amount.
module _ (db : Db) (v : IsBooked db) (id : Text) (r : SavingRecord)
    (row : find key_of_saving id db.savings ≡ some r) (kind : is_deposit r.saving_type ≡ true) where
  pub saving_id : r.id ≡ id
  saving_id = text_eq→eq r.id id (find-key key_of_saving id db.savings row)

  pub deposited_own : (m : ℕ → ℕ) → live_sum m r.id savings_type db.ledger.entries ≡ m r.amount
  deposited_own m =
      let whole = sum_of-keep key_of_saving (deposited m id) id db.savings row v.named in
      let mine = find-key key_of_saving id db.savings row in
      rw saving_id
        (ground (arith, v.mirrored m id, whole, mine, kind, deposited_else m id db.savings))

  abbrev pub chosen : Option Entry
  chosen = last_of (is_live r.id savings_type db.ledger.entries) db.ledger.entries

  pub stands_for : (e : Entry) × (chosen ≡ some e) × (e.amount ≡ r.amount)
  stands_for =
      live_sum_sole savings_type r.id db.ledger.entries r.amount v.ordered.entered deposited_own

  -- New rows and the ledger that goes with them.
  module _ (db' : Db) (new : Option ℕ) (named : IsKeyed key_of_saving db'.savings)
      (sums : (m : ℕ → ℕ) (u : Text)
        → sum_of (deposited m u) db'.savings + (if text_eq r.id u then m r.amount else 0)
          ≡ sum_of (deposited m u) db.savings + (if text_eq r.id u then arriving m new else 0))
      (old : ℕ) (same : old ≡ r.amount)
      (s : Synced db.ledger.entries db'.ledger.entries r.id old new) where
    pub synced-IsBooked : IsBooked db'
    synced-IsBooked = record {
      named = named;
      ordered = s.0;
      top = s.1;
      mirrored = λ m u.
          let moved = rw same at (s.2.sums m u) in omega (arith, moved, sums m u, v.mirrored m u);
    }
