-- ===== src/Withdrawals/Cover.antt =====
-- Active reservations against the members' limits (internal/app/withdrawals.go).
use kopdes.Base.{ℕ, ◌+◌, ◌≤◌, ◌≡◌, if◌then◌else◌, List, [], ◌∷◌, ◌++◌, keep, sum_of, arith, sub_ℕ}
use kopdes.Base.Text.{Text}
use kopdes.Base.Table.{IsKeyed, sum_of-update, sum_of-keep}
use kopdes.Savings.{
  SavingRecord, withdrawal, sukarela, sum_deposits, sum_withdrawals, of_category, category_balance,
  saving_summary, max_withdrawal_amount_for_sukarela_balance,
}
use kopdes.Withdrawals.Types.{Db, Request, key_of_request, held_for, reserved}
use kopdes.Withdrawals.Requests.{other_than}
use kopdes.Withdrawals.Effects.{Rewrites}

-- The most that a member may withdraw.
abbrev pub limit_of : Text → List SavingRecord → ℕ
limit_of m savings =
    max_withdrawal_amount_for_sukarela_balance (saving_summary m savings).sukarela_balance

-- Together, a member's active reservations fit the member's limit.
abbrev pub IsCovered : Db → Type 0
IsCovered db = (m : Text) → reserved m db.requests ≤ limit_of m db.savings

sum_deposits-append :
    (m : Text) (rs : List SavingRecord) (r : SavingRecord)
    → r.saving_type ≡ withdrawal
    → sum_deposits (of_category m sukarela) (rs ++ r ∷ [])
      ≡ sum_deposits (of_category m sukarela) rs
unfolding sum_deposits
sum_deposits-append m [] r w = rw w (ground arith)
sum_deposits-append m (q ∷ rs) r w = omega (arith, sum_deposits-append m rs r w)

sum_withdrawals-append :
    (m : Text) (rs : List SavingRecord) (r : SavingRecord)
    → r.saving_type ≡ withdrawal
    → sum_withdrawals (of_category m sukarela) (rs ++ r ∷ [])
      ≡ sum_withdrawals (of_category m sukarela) rs
        + (if of_category m sukarela r then r.amount else 0)
unfolding sum_withdrawals
sum_withdrawals-append m [] r w = rw w (ground arith)
sum_withdrawals-append m (q ∷ rs) r w = omega (arith, sum_withdrawals-append m rs r w)

limit-debit :
    (deposits withdrawals amount : ℕ)
    → max_withdrawal_amount_for_sukarela_balance (sub_ℕ deposits withdrawals)
      ≤ max_withdrawal_amount_for_sukarela_balance (sub_ℕ deposits (withdrawals + amount)) + amount
unfolding max_withdrawal_amount_for_sukarela_balance
limit-debit deposits withdrawals amount = ground arith

-- A withdrawal lowers the limit of its member by at most its amount.
pub limit_of-append :
    (m : Text) (rs : List SavingRecord) (r : SavingRecord)
    → r.saving_type ≡ withdrawal
    → limit_of m rs ≤ limit_of m (rs ++ r ∷ []) + (if of_category m sukarela r then r.amount else 0)
unfolding saving_summary category_balance
limit_of-append m rs r w =
    rw (sum_deposits-append m rs r w, sum_withdrawals-append m rs r w)
      (limit-debit (sum_deposits (of_category m sukarela) rs)
        (sum_withdrawals (of_category m sukarela) rs) _)

module _ (db db' : Db) (id : Text) (f : Request → Request) (r : Request) where
  -- A row rewritten to hold what fits beside the others.
  pub Rewrites-IsCovered :
      Rewrites db db' id f r
      → IsKeyed key_of_request db.requests
      → ((m : Text)
          → sum_of (held_for m) (keep (other_than id) db.requests) + held_for m (f r)
            ≤ limit_of m db.savings)
      → IsCovered db'
  Rewrites-IsCovered w keyed fits m =
      rw (w.requests, w.savings)
        (omega (
          arith,
          fits m,
          sum_of-update key_of_request (held_for m) id f db.requests w.row,
          sum_of-keep key_of_request (held_for m) id db.requests w.row keyed,
        ))

  -- A row rewritten to hold no more than before.
  pub Rewrites-IsCovered_less :
      Rewrites db db' id f r
      → ((m : Text) → held_for m (f r) ≤ held_for m r)
      → IsCovered db
      → IsCovered db'
  Rewrites-IsCovered_less w less covered m =
      rw (w.requests, w.savings)
        (omega (
          arith,
          less m,
          covered m,
          sum_of-update key_of_request (held_for m) id f db.requests w.row,
        ))
