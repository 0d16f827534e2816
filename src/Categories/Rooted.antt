-- ===== src/Categories/Rooted.antt =====
-- The tree of categories has no cycle (internal/app/cash_transaction_category_tree.go,
-- internal/app/manual_cash_transactions.go).
use kopdes.Base.{
  ℕ, zero, suc, ◌≡◌, refl, ◌∙◌, true, false, some, List, [], ◌∷◌, length, ok, arith, inl, inr, Bool,
  Bool-cases, Option-cases, Result-cases, All, if◌then◌else◌,
}
use kopdes.Base.Text.{Text, text_eq, text_eq→eq, text_eq_refl, trim_space, is_empty}
use kopdes.Base.Table.{find, update, find-update, find-key}
use kopdes.Base.Keyed.{find-update_other, All-map, All-update_any}
use kopdes.Categories.{
  CashTransactionCategory, CategoryUpdate, CategoryAudit, key_of_category, has_seen, walk_parents,
  validate_category_parent, change_category, mark_group, updated_rows, update_category,
}

-- The parents of an identifier lead to a root.
pub data IsRooted (rows : List CashTransactionCategory) : Text → Type 0 where
  no_parent : (id : Text) → is_empty id ≡ true → IsRooted rows id
  under :
      (id : Text) (row : CashTransactionCategory)
      → find key_of_category id rows ≡ some row
      → IsRooted rows (trim_space row.parent_id)
      → IsRooted rows id

-- They do so without a given category.
data IsRootedAway (rows : List CashTransactionCategory) (away : Text) : Text → Type 0 where
  no_parent_away : (id : Text) → is_empty id ≡ true → IsRootedAway rows away id
  under_away :
      (id : Text) (row : CashTransactionCategory)
      → text_eq away id ≡ false
      → find key_of_category id rows ≡ some row
      → IsRootedAway rows away (trim_space row.parent_id)
      → IsRootedAway rows away id

walk_parents-IsRootedAway :
    (rows : List CashTransactionCategory) (away : Text) (fuel : ℕ) (seen : List Text) (id : Text)
    → has_seen away seen ≡ true
    → walk_parents rows fuel seen id ≡ ok tt
    → IsRootedAway rows away id
unfolding walk_parents
walk_parents-IsRootedAway rows away zero seen id s h = absurd (ground arith)
walk_parents-IsRootedAway rows away (suc fuel) seen id s h = elim (Bool-cases (is_empty id)) [
  | inl at_end ↦ no_parent_away id at_end
  | inr more ↦ elim (Option-cases (find key_of_category id rows)) [
    | inl missing ↦ absurd (ground arith)
    | inr (row, e) ↦
        let new : has_seen id seen ≡ false = ground arith in
        under_away id row (not_seen away id seen s new) e (
          walk_parents-IsRootedAway rows away fuel (id ∷ seen) (trim_space row.parent_id)
            (ground arith) (ground arith))
  ]
]
  where
    not_seen :
        (a b : Text) (seen : List Text)
        → has_seen a seen ≡ true
        → has_seen b seen ≡ false
        → text_eq a b ≡ false
    not_seen a b seen h n = elim (Bool-cases (text_eq a b)) [
      | inl same ↦ absurd (ground (arith, rw (text_eq→eq a b same) at h))
      | inr other ↦ other
    ]

-- The row of an identifier, with another's parent.
module _ (rows rows' : List CashTransactionCategory) (cat : Text) where
  away-IsRooted :
      ((id : Text) (row : CashTransactionCategory)
        → text_eq cat id ≡ false
        → find key_of_category id rows ≡ some row
        → (row' : CashTransactionCategory) × (find key_of_category id rows' ≡ some row')
          × (row'.parent_id ≡ row.parent_id))
      → (id : Text) → IsRootedAway rows cat id
      → IsRooted rows' id
  away-IsRooted kept id (no_parent_away _ e) = no_parent id e
  away-IsRooted kept id (under_away _ row other e up) =
      let (row', e', same) = kept id row other e in
      under id row' e' (rw same (away-IsRooted kept (trim_space row.parent_id) up))

  parent_kept-IsRooted :
      ((id : Text) (row : CashTransactionCategory)
        → text_eq cat id ≡ false
        → find key_of_category id rows ≡ some row
        → (row' : CashTransactionCategory) × (find key_of_category id rows' ≡ some row')
          × (row'.parent_id ≡ row.parent_id))
      → IsRooted rows' cat
      → (id : Text) → IsRooted rows id
      → IsRooted rows' id
  parent_kept-IsRooted kept moved id (no_parent _ e) = no_parent id e
  parent_kept-IsRooted kept moved id (under _ row e up) = elim (Bool-cases (text_eq cat id)) [
    | inl here ↦ rw (text_eq→eq cat id here) at moved
    | inr other ↦
        let (row', e', same) = kept id row other e in
        under id row' e' (rw same (parent_kept-IsRooted kept moved (trim_space row.parent_id) up))
  ]

-- Marking a group keeps every row's parent.
mark_group-kept :
    (rows : List CashTransactionCategory) (k j : Text) (row : CashTransactionCategory)
    → find key_of_category j rows ≡ some row
    → (row' : CashTransactionCategory) × (find key_of_category j
          (update key_of_category k mark_group rows)
        ≡ some row')
      × (row'.parent_id ≡ row.parent_id)
mark_group-kept rows k j row e = elim (Bool-cases (text_eq k j)) [
  | inl here ↦ (
    mark_group row,
    rw (text_eq→eq k j here)
        (find-update key_of_category j mark_group rows e (find-key key_of_category j rows e)),
    refl,
  )
  | inr other ↦
      (row, find-update_other key_of_category j k mark_group rows other (λ q _. refl) ∙ e, refl)
]

marked-kept :
    (rows : List CashTransactionCategory) (parent j : Text) (row : CashTransactionCategory)
    → find key_of_category j rows ≡ some row
    → (row' : CashTransactionCategory) × (find key_of_category j
          (if is_empty parent then rows else update key_of_category parent mark_group rows)
        ≡ some row')
      × (row'.parent_id ≡ row.parent_id)
marked-kept rows parent j row e = elim (Bool-cases (is_empty parent)) [
  | inl root ↦ (row, rw root e, refl)
  | inr inner ↦ rw inner (mark_group-kept rows parent j row e)
]

validate_category_parent-IsRootedAway :
    (rows : List CashTransactionCategory) (id parent direction : Text)
    → validate_category_parent rows id parent direction ≡ ok tt
    → IsRootedAway rows id (trim_space parent)
unfolding validate_category_parent
validate_category_parent-IsRootedAway rows id parent direction h =
    elim (Bool-cases (is_empty (trim_space parent))) [
      | inl root ↦ no_parent_away (trim_space parent) root
      | inr inner ↦ elim (Option-cases (find key_of_category (trim_space parent) rows)) [
        | inl missing ↦ absurd (ground arith)
        | inr (row, e) ↦
            walk_parents-IsRootedAway rows id (suc (length rows)) (id ∷ []) (trim_space parent)
              (ground (arith, text_eq_refl id)) (ground arith)
      ]
    ]

marked-All :
    (P : CashTransactionCategory → Type 0) (rows : List CashTransactionCategory) (parent : Text)
    → ((c : CashTransactionCategory) → P c → P (mark_group c))
    → All P rows
    → All P (if is_empty parent then rows else update key_of_category parent mark_group rows)
marked-All P rows parent carry h = elim (Bool-cases (is_empty parent)) [
  | inl root ↦ rw root h
  | inr inner ↦ rw inner (All-update_any key_of_category P parent mark_group rows carry h)
]

-- The other categories keep their parents.
updated_rows-kept :
    (rows : List CashTransactionCategory) (id : Text) (req : CategoryUpdate) (j : Text)
    (row : CashTransactionCategory)
    → text_eq id j ≡ false
    → find key_of_category j rows ≡ some row
    → (row' : CashTransactionCategory) × (find key_of_category j (updated_rows id req rows)
        ≡ some row')
      × (row'.parent_id ≡ row.parent_id)
updated_rows-kept rows id req j row other e =
    marked-kept (update key_of_category id (change_category req) rows) req.parent_id j row
      (find-update_other key_of_category j id (change_category req) rows other (λ q _. refl) ∙ e)

-- The whole table after an update.
updated_rows-IsRooted :
    (rows : List CashTransactionCategory) (id : Text) (req : CategoryUpdate)
    (current : CashTransactionCategory)
    → find key_of_category id rows ≡ some current
    → IsRootedAway rows id (trim_space req.parent_id)
    → All (λ (c : CashTransactionCategory). IsRooted rows c.id) rows
    → All
        (λ (c : CashTransactionCategory). IsRooted (updated_rows id req rows) c.id)
        (updated_rows id req rows)
updated_rows-IsRooted rows id req current e away all =
    let changed = update key_of_category id (change_category req) rows in
    let rows' = updated_rows id req rows in
    let kept = updated_rows-kept rows id req in
    let (top, top_row, top_parent) =
      marked-kept changed req.parent_id id (change_category req current) (
        find-update key_of_category id (change_category req) rows e
          (find-key key_of_category id rows e)) in
    let moved : IsRooted rows' id =
      under id top top_row
        (rw top_parent (away-IsRooted rows rows' id kept (trim_space req.parent_id) away)) in
    let before : All (λ (c : CashTransactionCategory). IsRooted rows' c.id) rows =
      All-map _ _ rows (λ c h. parent_kept-IsRooted rows rows' id kept moved c.id h) all in
    let after : All (λ (c : CashTransactionCategory). IsRooted rows' c.id) changed =
      All-update_any key_of_category _ id (change_category req) rows (λ c h. h) before in
    marked-All (λ (c : CashTransactionCategory). IsRooted rows' c.id) changed req.parent_id
      (λ c h. h) after

-- An update of a category keeps the tree a tree: if the parents of every category lead to a root
-- before an update that succeeds, they do so after it, so no category comes to stand below itself.
pub update_category-IsRooted :
    (rows : List CashTransactionCategory) (audits : List CategoryAudit) (is_used : Bool)
    (actor_id id : Text) (req : CategoryUpdate) {rows' : List CashTransactionCategory}
    {audits' : List CategoryAudit}
    → update_category rows audits is_used actor_id id req ≡ ok (rows', audits')
    → All (λ (c : CashTransactionCategory). IsRooted rows c.id) rows
    → All (λ (c : CashTransactionCategory). IsRooted rows' c.id) rows'
unfolding update_category
update_category-IsRooted rows audits is_used actor_id id req {rows'} {audits'} h all =
    elim (Option-cases (find key_of_category id rows)) [
      | inl missing ↦ absurd (ground arith)
      | inr (current, e) ↦
          elim (Result-cases (validate_category_parent rows id req.parent_id current.direction)) [
            | inr (x, bad) ↦ absurd (ground arith)
            | inl (_, valid) ↦
                let same : updated_rows id req rows ≡ rows' = ground arith in
                rw same at (
                  updated_rows-IsRooted rows id req current e
                    (validate_category_parent-IsRootedAway rows id req.parent_id current.direction
                      (ground (arith, valid)))
                    all)
          ]
    ]
