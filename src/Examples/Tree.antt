-- ===== src/Examples/Tree.antt =====
-- A small tree of categories.
use kopdes.Base.{
  none, Option, ◌≡◌, ap, sym, ◌≢◌, refl, true, false, Bool, ok, err, some, [], ◌∷◌, List, All,
}
use kopdes.Base.Text.{Text, codes, text_eq, trim_space, is_space}
use kopdes.Base.Table.{find, update}
use kopdes.Categories.{
  CashTransactionCategory, CategoryUpdate, update_category, validate_category_parent, walk_parents,
  unfinished, category_cycle,
}
use kopdes.Categories.Rooted.{IsRooted, no_parent, under, update_category-IsRooted}
use kopdes.Categories.Finished.{validate_category_parent-ends}
use kopdes.Categories.Refused.{itself, below, update_category-refuses}
use kopdes.Categories.Sorting.{sort_categories}
use kopdes.Categories.Sorted.{IsInOrder, count, sort_categories_lem}

abbrev category : Text → Text → CashTransactionCategory
category id parent = record {
  id = id;
  account_code = [];
  parent_id = parent;
  direction = codes "cash_in";
  name = id;
  normal_balance = [];
  is_group = false;
  active = true;
}

abbrev rows : List CashTransactionCategory
rows = category (codes "b") [] ∷ category (codes "a") [] ∷ category (codes "c") (codes "a") ∷ []

root_row :
    (id : Text) (row : CashTransactionCategory)
    → row.parent_id ≡ []
    → find (λ c. c.id) id rows ≡ some row
    → IsRooted rows id
unfolding trim_space
root_row id row h e = under id row e (rw h (no_parent [] refl))

rows-IsRooted : All (λ (c : CashTransactionCategory). IsRooted rows c.id) rows
unfolding find text_eq trim_space is_space
rows-IsRooted =
    let a = root_row (codes "a") (category (codes "a") []) refl refl in
    (
      root_row (codes "b") (category (codes "b") []) refl refl,
      (a, (under (codes "c") (category (codes "c") (codes "a")) refl a, tt)),
    )

abbrev move : CategoryUpdate
move = record {
  name = codes "b";
  account_code = [];
  parent_id = codes "c";
  normal_balance = [];
  active = true;
}

abbrev moved_rows : List CashTransactionCategory
moved_rows =
    category (codes "b") (codes "c")
    ∷ category (codes "a") []
    ∷ record (category (codes "c") (codes "a")) { is_group = true }
    ∷ []

move_run : update_category rows [] true (codes "s") (codes "b") move ≡ ok (moved_rows, [])
unfolding update_category find text_eq validate_category_parent trim_space is_space walk_parents
    update
move_run = refl

update_category_example : All (λ (c : CashTransactionCategory). IsRooted moved_rows c.id) moved_rows
update_category_example =
    update_category-IsRooted rows [] true (codes "s") (codes "b") move move_run rows-IsRooted

validate_category_parent_example :
    validate_category_parent rows (codes "a") (codes "c") (codes "cash_in") ≢ err unfinished
validate_category_parent_example =
    validate_category_parent-ends rows (codes "a") (codes "c") (codes "cash_in")

abbrev is_root : CashTransactionCategory → Bool
is_root c = text_eq c.parent_id []

sort_categories_example :
    IsInOrder (sort_categories rows) × (count is_root (sort_categories rows) ≡ count is_root rows)
sort_categories_example = sort_categories_lem rows is_root

-- The category `a` has `c` below it.
abbrev move_below : CategoryUpdate
move_below = record move { name = codes "a" }

abbrev is_cash_in : Option CashTransactionCategory → Bool
is_cash_in none = true
is_cash_in (some c) = text_eq c.direction (codes "cash_in")

c_row-direction :
    (row : CashTransactionCategory)
    → find (λ (c : CashTransactionCategory). c.id) (codes "c") rows ≡ some row
    → text_eq row.direction (codes "cash_in") ≡ true
unfolding find text_eq
c_row-direction row e = ap is_cash_in (sym e)

update_category-refuses_example :
    update_category rows [] true (codes "s") (codes "a") move_below ≡ err category_cycle
unfolding find text_eq trim_space is_space
update_category-refuses_example =
    update_category-refuses rows [] true (codes "s") (codes "a") move_below
      (category (codes "a") []) refl refl refl refl c_row-direction
      (below (codes "c") (category (codes "c") (codes "a")) refl refl itself)
