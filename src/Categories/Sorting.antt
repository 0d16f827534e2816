-- ===== src/Categories/Sorting.antt =====
-- `sortCashTransactionCategories` and `cashTransactionCategoryLess` of
-- internal/app/cash_transaction_category_tree.go.
use kopdes.Base.{Bool, not, if◌then◌else◌, List, [], ◌∷◌}
use kopdes.Base.Text.{Text, codes, text_eq, text_ltb, is_empty}
use kopdes.Categories.{CashTransactionCategory}

abbrev pub code_of : CashTransactionCategory → Text
code_of c = if is_empty c.account_code then codes "999999999" else c.account_code

-- `cashTransactionCategoryLess`
unfoldable pub category_less : CashTransactionCategory → CashTransactionCategory → Bool
category_less l r =
    if not (text_eq (code_of l) (code_of r))
    then text_ltb (code_of l) (code_of r)
    else (if not (text_eq l.name r.name) then text_ltb l.name r.name else text_ltb l.id r.id)

-- The inner loop: the sorted part stands last entry first, as the loop walks it.
unfoldable pub shift_in :
    CashTransactionCategory → List CashTransactionCategory → List CashTransactionCategory
shift_in current [] = current ∷ []
shift_in current (c ∷ before) =
    let deeper = shift_in current before in
    if category_less current c then c ∷ deeper else current ∷ c ∷ before

-- The outer loop, with the sorted part.
unfoldable pub sort_onto :
    List CashTransactionCategory → List CashTransactionCategory → List CashTransactionCategory
sort_onto sorted [] = sorted
sort_onto sorted (c ∷ rest) = sort_onto (shift_in c sorted) rest

abbrev pub turned :
    List CashTransactionCategory → List CashTransactionCategory → List CashTransactionCategory
turned [] onto = onto
turned (c ∷ before) onto = turned before (c ∷ onto)

-- `sortCashTransactionCategories`
unfoldable pub sort_categories : List CashTransactionCategory → List CashTransactionCategory
sort_categories categories = turned (sort_onto [] categories) []
