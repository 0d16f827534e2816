-- ===== src/Categories/Refused.antt =====
-- A category is not moved below itself (internal/app/cash_transaction_category_tree.go,
-- internal/app/manual_cash_transactions.go).
use kopdes.Base.{
  ℕ, zero, suc, ◌<◌, ◌≡◌, Bool, true, false, not, ◌&&◌, some, List, [], ◌∷◌, length, err, arith,
  inl, inr, Bool-cases,
}
use kopdes.Base.Text.{Text, text_eq, text_eq_refl, trim_space, is_empty}
use kopdes.Base.Table.{find}
use kopdes.Categories.{
  CashTransactionCategory, CategoryUpdate, CategoryAudit, key_of_category, has_seen, walk_parents,
  validate_category_parent, update_category, category_cycle,
}
use kopdes.Categories.Finished.{unseen, unseen-found, length-keep}

-- The parents of an identifier lead to a given category, which is itself or above it.
pub data IsBelow (rows : List CashTransactionCategory) (top : Text) : Text → Type 0 where
  itself : IsBelow rows top top
  below :
      (id : Text) (row : CashTransactionCategory)
      → is_empty id ≡ false
      → find key_of_category id rows ≡ some row
      → IsBelow rows top (trim_space row.parent_id)
      → IsBelow rows top id

-- The loop comes to a category it has seen.
walk_parents-cycle :
    (rows : List CashTransactionCategory) (top : Text) (fuel : ℕ) (seen : List Text) (id : Text)
    → is_empty top ≡ false
    → has_seen top seen ≡ true
    → unseen seen rows < fuel
    → IsBelow rows top id
    → walk_parents rows fuel seen id ≡ err category_cycle
unfolding walk_parents
walk_parents-cycle rows top zero seen id named s le b = absurd (omega (arith, le))
walk_parents-cycle rows top (suc fuel) seen _ named s le itself = ground arith
walk_parents-cycle rows top (suc fuel) seen _ named s le (below id row inner e up) =
    elim (Bool-cases (has_seen id seen)) [
      | inl again ↦ ground arith
      | inr new ↦
          let deeper =
            walk_parents-cycle rows top fuel (id ∷ seen) (trim_space row.parent_id) named
              (ground arith) (omega (arith, le, unseen-found seen id rows {c = row} e new)) up in
          ground (arith, deeper)
    ]

strictly-below :
    (rows : List CashTransactionCategory) (top id : Text)
    → text_eq id top ≡ false
    → IsBelow rows top id
    → (row : CashTransactionCategory) × (find key_of_category id rows ≡ some row)
strictly-below rows top _ other itself = absurd (ground (arith, text_eq_refl top))
strictly-below rows top _ other (below id row inner e up) = (row, e)

validate_category_parent-cycle :
    (rows : List CashTransactionCategory) (id parent direction : Text)
    → is_empty id ≡ false
    → is_empty (trim_space parent) ≡ false
    → ((row : CashTransactionCategory)
        → find key_of_category (trim_space parent) rows ≡ some row
        → text_eq row.direction direction ≡ true)
    → IsBelow rows id (trim_space parent)
    → validate_category_parent rows id parent direction ≡ err category_cycle
unfolding validate_category_parent
validate_category_parent-cycle rows id parent direction named inner fits b =
    let enough = length-keep (λ c. not (has_seen c.id (id ∷ []))) rows in
    let walked =
      walk_parents-cycle rows id (suc (length rows)) (id ∷ []) (trim_space parent) named
        (ground (arith, text_eq_refl id)) (omega (arith, enough)) b in
    elim (Bool-cases (text_eq (trim_space parent) id)) [
      | inl same ↦ ground arith
      | inr other ↦
          let (row, e) = strictly-below rows id (trim_space parent) other b in
          ground (arith, fits row e)
    ]

-- A category is not moved below itself: where the new parent of a category is the category itself,
-- or a category of the same direction whose parents lead to it, the update is refused as a cycle,
-- if the category exists, its identifier is not empty, and the update keeps its name or no manual
-- transaction has the category.
pub update_category-refuses :
    (rows : List CashTransactionCategory) (audits : List CategoryAudit) (is_used : Bool)
    (actor_id id : Text) (req : CategoryUpdate) (current : CashTransactionCategory)
    → is_empty id ≡ false
    → find key_of_category id rows ≡ some current
    → (not (text_eq current.name req.name) && is_used) ≡ false
    → is_empty (trim_space req.parent_id) ≡ false
    → ((row : CashTransactionCategory)
        → find key_of_category (trim_space req.parent_id) rows ≡ some row
        → text_eq row.direction current.direction ≡ true)
    → IsBelow rows id (trim_space req.parent_id)
    → update_category rows audits is_used actor_id id req ≡ err category_cycle
unfolding update_category
update_category-refuses rows audits is_used actor_id id req current named e free inner fits b =
    let refused =
      validate_category_parent-cycle rows id req.parent_id current.direction named inner fits b in
    ground (arith, refused)
