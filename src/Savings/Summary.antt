-- ===== src/Savings/Summary.antt =====
-- About `savingSummary` of internal/app/savings.go: the summary against its categories.
use kopdes.Base.{ℕ, ◌+◌, ◌≡◌, List, [], ◌∷◌, arith, pos_part, neg_part, sub_ℕ}
use kopdes.Base.Text.{Text}
use kopdes.Savings.{
  SavingRecord, pokok, wajib, sukarela, shu, khusus, SavingCategory, sum_deposits, sum_withdrawals,
  of_member, of_category, category_balance, saving_summary,
}

sub_ℕ_parts : (a b : ℕ) → pos_part (sub_ℕ a b) + b ≡ neg_part (sub_ℕ a b) + a
sub_ℕ_parts a b = ground arith

module _ (m : Text) where
  deposits_split :
      (rs : List SavingRecord)
      → sum_deposits (of_member m) rs
        ≡ sum_deposits (of_category m pokok) rs
          + sum_deposits (of_category m wajib) rs
          + sum_deposits (of_category m sukarela) rs
          + sum_deposits (of_category m shu) rs
          + sum_deposits (of_category m khusus) rs
  unfolding sum_deposits
  deposits_split [] = omega arith
  deposits_split (r ∷ rs) = ground (arith, deposits_split rs)

  withdrawals_split :
      (rs : List SavingRecord)
      → sum_withdrawals (of_member m) rs
        ≡ sum_withdrawals (of_category m pokok) rs
          + sum_withdrawals (of_category m wajib) rs
          + sum_withdrawals (of_category m sukarela) rs
          + sum_withdrawals (of_category m shu) rs
          + sum_withdrawals (of_category m khusus) rs
  unfolding sum_withdrawals
  withdrawals_split [] = omega arith
  withdrawals_split (r ∷ rs) = ground (arith, withdrawals_split rs)

category_parts :
    (m : Text) (c : SavingCategory) (rs : List SavingRecord)
    → pos_part (category_balance m c rs) + sum_withdrawals (of_category m c) rs
      ≡ neg_part (category_balance m c rs) + sum_deposits (of_category m c) rs
unfolding category_balance
category_parts m c rs = sub_ℕ_parts (sum_deposits (of_category m c) rs) _

-- The current balance of a summary is the sum of the four category balances and of the balance of
-- the category khusus, which the summary does not list (an equation of signed numbers, with the
-- negative parts moved across).
pub saving_summary_total :
    (member_id : Text) (rs : List SavingRecord)
    → let s = saving_summary member_id rs in
      let k = category_balance member_id khusus rs in
      pos_part s.current_balance
        + neg_part s.pokok_balance
        + neg_part s.wajib_balance
        + neg_part s.sukarela_balance
        + neg_part s.shu_balance
        + neg_part k
      ≡ neg_part s.current_balance
        + pos_part s.pokok_balance
        + pos_part s.wajib_balance
        + pos_part s.sukarela_balance
        + pos_part s.shu_balance
        + pos_part k
unfolding saving_summary
saving_summary_total m rs = omega (
  arith,
  deposits_split m rs,
  withdrawals_split m rs,
  sub_ℕ_parts (sum_deposits (of_member m) rs) (sum_withdrawals (of_member m) rs),
  category_parts m pokok rs,
  category_parts m wajib rs,
  category_parts m sukarela rs,
  category_parts m shu rs,
  category_parts m khusus rs,
)
