-- ===== src/Savings.antt =====
-- Savings of a member and what may be withdrawn: internal/app/savings.go.
pub mod Limits
pub mod Summary
pub mod Records
pub mod Corrections
pub mod Removal
pub mod Entered
pub mod Synced
pub mod Booked
pub mod Corrected
pub mod Lifecycle
use kopdes.Base.{
  ℕ, ◌+◌, ◌-◌, ◌*◌, ◌/◌, ◌%◌, Bool, true, false, ◌&&◌, leb, if◌then◌else◌, ℤ, pos, negsuc, sub_ℕ,
  List, [], ◌∷◌,
}
use kopdes.Base.Text.{Text, text_eq}

pub data SavingType : Type 0 where
  deposit withdrawal : SavingType

-- The categories that `validSavingCategory` admits.
pub data SavingCategory : Type 0 where
  pokok wajib sukarela shu khusus : SavingCategory

-- A row of `saving_records`; the table keeps amounts positive.
pub record SavingRecord : Type 0 where
  pub id : Text
  pub member_id : Text
  pub saving_type : SavingType
  pub category : SavingCategory
  pub source : Text
  pub coa_code : Text
  pub amount : ℕ
  pub record_date : Text
  pub reference_no : Text
  pub note : Text
  pub recorded_by : Text

pub record SavingSummary : Type 0 where
  pub total_deposit : ℕ
  pub total_withdrawal : ℕ
  pub current_balance : ℤ
  pub pokok_balance : ℤ
  pub wajib_balance : ℤ
  pub sukarela_balance : ℤ
  pub shu_balance : ℤ
  pub available_withdrawal_balance : ℤ

abbrev pub same_category : SavingCategory → SavingCategory → Bool
same_category pokok pokok = true
same_category wajib wajib = true
same_category sukarela sukarela = true
same_category shu shu = true
same_category khusus khusus = true
same_category _ _ = false

abbrev pub deposit_amount : SavingType → ℕ → ℕ
deposit_amount deposit n = n
deposit_amount withdrawal n = 0

abbrev pub withdrawal_amount : SavingType → ℕ → ℕ
withdrawal_amount deposit n = 0
withdrawal_amount withdrawal n = n

-- `SUM(CASE …)` over the member's records, for those that a test admits.
unfoldable pub sum_deposits : (SavingRecord → Bool) → List SavingRecord → ℕ
sum_deposits p [] = 0
sum_deposits p (r ∷ rest) =
    (if p r then deposit_amount r.saving_type r.amount else 0) + sum_deposits p rest

unfoldable pub sum_withdrawals : (SavingRecord → Bool) → List SavingRecord → ℕ
sum_withdrawals p [] = 0
sum_withdrawals p (r ∷ rest) =
    (if p r then withdrawal_amount r.saving_type r.amount else 0) + sum_withdrawals p rest

abbrev pub of_member : Text → SavingRecord → Bool
of_member member_id r = text_eq r.member_id member_id

abbrev pub of_category : Text → SavingCategory → SavingRecord → Bool
of_category member_id c r = text_eq r.member_id member_id && same_category r.category c

unfoldable pub category_balance : Text → SavingCategory → List SavingRecord → ℤ
unfolding sum_deposits sum_withdrawals
category_balance member_id c rs =
    sub_ℕ (sum_deposits (of_category member_id c) rs) (sum_withdrawals (of_category member_id c) rs)

-- `savingSummary`
unfoldable pub saving_summary : Text → List SavingRecord → SavingSummary
saving_summary member_id rs =
    let deposits = sum_deposits (of_member member_id) rs in
    let withdrawals = sum_withdrawals (of_member member_id) rs in
    record {
      total_deposit = deposits;
      total_withdrawal = withdrawals;
      current_balance = sub_ℕ deposits withdrawals;
      pokok_balance = category_balance member_id pokok rs;
      wajib_balance = category_balance member_id wajib rs;
      sukarela_balance = category_balance member_id sukarela rs;
      shu_balance = category_balance member_id shu rs;
      available_withdrawal_balance = category_balance member_id sukarela rs;
    }

-- `BalanceForCategory`
unfoldable pub balance_for_category : SavingSummary → SavingCategory → ℤ
balance_for_category s pokok = s.pokok_balance
balance_for_category s wajib = s.wajib_balance
balance_for_category s sukarela = s.sukarela_balance
balance_for_category s shu = s.shu_balance
balance_for_category s khusus = pos 0

-- `maxWithdrawalAmountForSukarelaBalance`: 75%, rounded down.
unfoldable pub max_withdrawal_amount_for_sukarela_balance : ℤ → ℕ
max_withdrawal_amount_for_sukarela_balance (negsuc n) = 0
max_withdrawal_amount_for_sukarela_balance (pos balance) =
    balance / 100 * 75 + balance % 100 * 75 / 100

-- `availableWithdrawalAmountForSukarelaBalance`
unfoldable pub available_withdrawal_amount_for_sukarela_balance : ℤ → ℕ → ℤ
available_withdrawal_amount_for_sukarela_balance balance reserved =
    let maximum = max_withdrawal_amount_for_sukarela_balance balance in
    if leb maximum reserved then pos 0 else sub_ℕ maximum reserved
