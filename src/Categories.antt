-- ===== src/Categories.antt =====
-- The tree of cash transaction categories: `validateCashTransactionCategoryParentTx` of
-- internal/app/cash_transaction_category_tree.go and `updateCashTransactionCategoryByID` of
-- internal/app/manual_cash_transactions.go. No category has the empty text as its identifier; the
-- table's own constraints on keys and names are left out.
pub mod Rooted
pub mod Finished
pub mod Refused
pub mod Sorting
pub mod Sorted
use kopdes.Base.{
  ℕ, zero, suc, Bool, true, false, not, ◌&&◌, ◌||◌, if◌then◌else◌, Option, none, some, List, [],
  ◌∷◌, ◌++◌, length, Result, ok, err, ◌>>=◌, ◌>>◌, reject_if, found,
}
use kopdes.Base.Text.{Text, text_eq, trim_space, is_empty}
use kopdes.Base.Table.{find, update}

-- A row of `cash_transaction_categories`; the key and the times are left out.
pub record CashTransactionCategory : Type 0 where
  pub id : Text
  pub account_code : Text
  pub parent_id : Text
  pub direction : Text
  pub name : Text
  pub normal_balance : Text
  pub is_group : Bool
  pub active : Bool

-- `cashTransactionCategoryUpdateRequest`, its fields normalized
pub record CategoryUpdate : Type 0 where
  pub name : Text
  pub account_code : Text
  pub parent_id : Text
  pub normal_balance : Text
  pub active : Bool

pub data CategoryAction : Type 0 where
  renamed deactivated reactivated : CategoryAction

-- A row of `cash_transaction_category_audits`.
pub record CategoryAudit : Type 0 where
  pub category_id : Text
  pub actor_id : Text
  pub action : CategoryAction
  pub old_name : Text
  pub new_name : Text

pub data CategoryError : Type 0 where
  category_not_found name_locked parent_not_found parent_direction category_cycle : CategoryError
  -- the loop had no fuel left
  unfinished : CategoryError

abbrev pub Outcome : Type 0 → Type 0
Outcome A = Result CategoryError A

abbrev pub key_of_category : CashTransactionCategory → Text
key_of_category c = c.id

abbrev pub has_seen : Text → List Text → Bool
has_seen id [] = false
has_seen id (s ∷ seen) = text_eq s id || has_seen id seen

-- The loop over the parents, with the identifiers seen so far and fuel.
unfoldable pub walk_parents :
    List CashTransactionCategory → ℕ → List Text → Text → Outcome (Unit {0})
walk_parents rows zero seen id = err unfinished
walk_parents rows (suc fuel) seen id =
    let onward : Outcome (Unit {0}) = (do
      reject_if (has_seen id seen) category_cycle
      row ← found (find key_of_category id rows) parent_not_found
      walk_parents rows fuel (id ∷ seen) (trim_space row.parent_id)) in
    if is_empty id then ok tt else onward

-- `validateCashTransactionCategoryParentTx`, with as much fuel as there are rows, and one more
unfoldable pub validate_category_parent :
    List CashTransactionCategory → Text → Text → Text → Outcome (Unit {0})
validate_category_parent rows category_id parent direction =
    let parent_id = trim_space parent in
    let checked : Outcome (Unit {0}) = (do
      reject_if (text_eq parent_id category_id) category_cycle
      row ← found (find key_of_category parent_id rows) parent_not_found
      reject_if (not (text_eq row.direction direction)) parent_direction
      walk_parents rows (suc (length rows)) (category_id ∷ []) parent_id) in
    if is_empty parent_id then ok tt else checked

abbrev pub change_category : CategoryUpdate → CashTransactionCategory → CashTransactionCategory
change_category req c = record c {
  name = req.name;
  account_code = req.account_code;
  parent_id = req.parent_id;
  normal_balance = req.normal_balance;
  active = req.active;
}

abbrev pub mark_group : CashTransactionCategory → CashTransactionCategory
mark_group c = record c { is_group = true }

-- The rows after an update: the category changed, and its parent marked as a group.
abbrev pub updated_rows :
    Text → CategoryUpdate → List CashTransactionCategory → List CashTransactionCategory
updated_rows id req rows =
    let changed = update key_of_category id (change_category req) rows in
    if is_empty req.parent_id
    then changed
    else update key_of_category req.parent_id mark_group changed

abbrev audit_if : Bool → CategoryAudit → List CategoryAudit → List CategoryAudit
audit_if false a audits = audits
audit_if true a audits = audits ++ a ∷ []

abbrev same_flag : Bool → Bool → Bool
same_flag true b = b
same_flag false b = not b

abbrev switched : Bool → CategoryAction
switched true = reactivated
switched false = deactivated

-- The audits of a new name and of a new state.
abbrev update_audits :
    Text → Text → CashTransactionCategory → CategoryUpdate → List CategoryAudit → List CategoryAudit
update_audits actor_id id current req audits =
    let rename : CategoryAudit = record {
      category_id = id;
      actor_id = actor_id;
      action = renamed;
      old_name = current.name;
      new_name = req.name;
    } in
    let toggle : CategoryAudit = record {
      category_id = id;
      actor_id = actor_id;
      action = switched req.active;
      old_name = current.name;
      new_name = current.name;
    } in
    audit_if (not (same_flag current.active req.active)) toggle
      (audit_if (not (text_eq current.name req.name)) rename audits)

-- `updateCashTransactionCategoryByID`; `is_used` tells that a manual transaction has the category.
unfoldable pub update_category :
    List CashTransactionCategory
    → List CategoryAudit
    → Bool
    → Text
    → Text
    → CategoryUpdate
    → Outcome (List CashTransactionCategory × List CategoryAudit)
update_category rows audits is_used actor_id id req = do
  current ← found (find key_of_category id rows) category_not_found
  reject_if (not (text_eq current.name req.name) && is_used) name_locked
  validate_category_parent rows id req.parent_id current.direction
  ok (updated_rows id req rows, update_audits actor_id id current req audits)
