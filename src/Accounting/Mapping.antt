-- ===== src/Accounting/Mapping.antt =====
-- Which account a line is posted to: `coaAccountForPostingTx` and `accountingMappingCOACodeTx` of
-- internal/app/accounting.go.
use kopdes.Base.{
  Bool, true, not, ◌&&◌, ◌||◌, if◌then◌else◌, Option, none, some, List, [], ◌∷◌, keep, ok, ◌>>=◌,
  ◌>>◌, reject_if, found,
}
use kopdes.Base.Text.{Text, codes, text_eq, text_ltb, is_empty}
use kopdes.Accounting.Types.{
  CoaAccount, AccountingMapping, Ledger, Journaled, coa_account_not_found, coa_account_inactive,
  coa_account_group,
}

abbrev pub account_of : Text → List CoaAccount → Option CoaAccount
account_of code [] = none
account_of code (a ∷ rest) = if text_eq a.code code then some a else account_of code rest

-- `coaAccountForPostingTx`
unfoldable pub coa_account_for_posting : Ledger → Text → Journaled CoaAccount
coa_account_for_posting ledger code = do
  account ← found (account_of code ledger.accounts) coa_account_not_found
  reject_if (not account.active) coa_account_inactive
  reject_if account.is_group coa_account_group
  ok account

abbrev not_after : Option Text → Text → Bool
not_after none date = true
not_after (some d) date = not (text_ltb date d)

abbrev not_before : Option Text → Text → Bool
not_before none date = true
not_before (some d) date = not (text_ltb d date)

abbrev from_or_zero : Option Text → Text
from_or_zero none = codes "0000-00-00"
from_or_zero (some d) = d

-- The key of a line in a transaction.
pub record MappingKey : Type 0 where
  pub transaction_type : Text
  pub component : Text
  pub category : Text
  pub loan_type : Text
  pub date : Text

-- The `WHERE` of the query.
unfoldable pub applies : MappingKey → AccountingMapping → Bool
applies k m =
    text_eq m.transaction_type k.transaction_type
    && text_eq m.component k.component
    && m.active
    && (text_eq m.category k.category || is_empty m.category)
    && (text_eq m.loan_type k.loan_type || is_empty m.loan_type)
    && not_after m.effective_from k.date
    && not_before m.effective_to k.date

-- The `ORDER BY` of the query: whether `m` stands before `n`.
unfoldable pub prefers : MappingKey → AccountingMapping → AccountingMapping → Bool
prefers k m n =
    let by_id = text_ltb m.id n.id in
    let from_m = from_or_zero m.effective_from in
    let from_n = from_or_zero n.effective_from in
    let by_from = text_ltb from_n from_m || (text_eq from_m from_n && by_id) in
    let loan_m = text_eq m.loan_type k.loan_type in
    let loan_n = text_eq n.loan_type k.loan_type in
    let by_loan = (loan_m && not loan_n) || ((loan_m || not loan_n) && by_from) in
    let category_m = text_eq m.category k.category in
    let category_n = text_eq n.category k.category in
    (category_m && not category_n) || ((category_m || not category_n) && by_loan)

abbrev better : MappingKey → AccountingMapping → Option AccountingMapping → Option AccountingMapping
better k m none = some m
better k m (some n) = if prefers k n m then some n else some m

-- The first row in that order.
unfoldable pub best_mapping : MappingKey → List AccountingMapping → Option AccountingMapping
best_mapping k [] = none
best_mapping k (m ∷ rest) = better k m (best_mapping k rest)

-- `accountingMappingCOACodeTx`; the empty text stands for no mapping.
unfoldable pub accounting_mapping_coa_code : Ledger → MappingKey → Text
unfolding applies prefers best_mapping
accounting_mapping_coa_code ledger key =
    let voucher = text_eq key.loan_type (codes "voucher") in
    let k = record key {
      loan_type = if voucher then codes "goods_purchase_paylater" else key.loan_type;
    } in
    elim (best_mapping k (keep (applies k) ledger.mappings)) [ none ↦ [] | some m ↦ m.coa_code ]
