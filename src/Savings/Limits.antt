-- ===== src/Savings/Limits.antt =====
-- About the limits on withdrawals of internal/app/savings.go.
use kopdes.Base.{
  sub_ℕ, Bool-cases, leb, inl, inr, ℕ, ◌+◌, ◌-◌, ◌*◌, ◌/◌, ◌≤◌, ◌<◌, ◌≡◌, false, pos, ltb_ℤ, ℤ,
  arith,
}
use kopdes.Savings.{
  max_withdrawal_amount_for_sukarela_balance, available_withdrawal_amount_for_sukarela_balance,
}

-- The limit is three quarters of the balance, rounded down; the code's split of the balance into
-- hundreds keeps every product below the balance's size and loses nothing.
pub max_withdrawal_amount_for_sukarela_balance_floor :
    (balance : ℕ)
    → let limit = max_withdrawal_amount_for_sukarela_balance (pos balance) in
      (limit ≡ balance * 75 / 100) × (limit ≤ balance)
unfolding max_withdrawal_amount_for_sukarela_balance
max_withdrawal_amount_for_sukarela_balance_floor balance = omega arith

-- An amount that the code's test lets pass fits the limit beside what is reserved.
pub available-fits :
    (balance : ℤ) (reserved amount : ℕ)
    → ltb_ℤ (available_withdrawal_amount_for_sukarela_balance balance reserved) (pos amount) ≡ false
    → 0 < amount
    → reserved + amount ≤ max_withdrawal_amount_for_sukarela_balance balance
unfolding available_withdrawal_amount_for_sukarela_balance
available-fits balance reserved amount h p = ground arith

-- The limit on a balance of deposits and withdrawals.
pub max_withdrawal-at_most :
    (deposits withdrawals amount : ℕ)
    → amount ≤ max_withdrawal_amount_for_sukarela_balance (sub_ℕ deposits withdrawals)
    → 100 * amount ≤ 75 * (deposits - withdrawals)
unfolding max_withdrawal_amount_for_sukarela_balance
max_withdrawal-at_most deposits withdrawals amount h =
    elim (Bool-cases (leb withdrawals deposits)) [
      | inl enough ↦ let within = rw enough at h in omega (arith, within)
      | inr overdrawn ↦ let within = rw overdrawn at h in omega (arith, within)
    ]
