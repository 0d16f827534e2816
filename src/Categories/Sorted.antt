-- ===== src/Categories/Sorted.antt =====
-- The order of sorted categories (internal/app/cash_transaction_category_tree.go).
use kopdes.Base.{
  ℕ, ◌+◌, ◌≡◌, refl, sym, ◌∙◌, Bool, true, false, not, if◌then◌else◌, List, [], ◌∷◌, length, keep,
  arith, inl, inr, Bool-cases,
}
use kopdes.Base.Text.{Text, text_eq, text_ltb, text_eq→eq, text_eq_sym-false}
use kopdes.Categories.{CashTransactionCategory}
use kopdes.Categories.Sorting.{code_of, category_less, shift_in, sort_onto, turned, sort_categories}

-- No entry is less than the one before it.
abbrev pub IsInOrder : List CashTransactionCategory → Type 0
IsInOrder [] = Unit
IsInOrder (c ∷ []) = Unit
IsInOrder (c ∷ d ∷ rest) = (category_less d c ≡ false) × IsInOrder (d ∷ rest)

abbrev IsInOrderDown : List CashTransactionCategory → Type 0
IsInOrderDown [] = Unit
IsInOrderDown (c ∷ []) = Unit
IsInOrderDown (c ∷ d ∷ rest) = (category_less c d ≡ false) × IsInOrderDown (d ∷ rest)

text_ltb_asym : (s t : Text) → text_ltb s t ≡ true → text_ltb t s ≡ false
unfolding text_ltb
text_ltb_asym [] [] h = refl
text_ltb_asym (c ∷ r) [] h = absurd (ground arith)
text_ltb_asym [] (d ∷ s) h = refl
text_ltb_asym (c ∷ r) (d ∷ s) h = ground (arith, text_ltb_asym r s)

text_eq_sym : (s t : Text) → text_eq s t ≡ text_eq t s
text_eq_sym s t = elim (Bool-cases (text_eq s t)) [
  | inl same ↦ rw (text_eq→eq s t same) refl
  | inr other ↦ other ∙ sym (text_eq_sym-false s t other)
]

category_less_asym :
    (l r : CashTransactionCategory) → category_less l r ≡ true → category_less r l ≡ false
unfolding category_less
category_less_asym l r h =
    let code = text_ltb_asym (code_of l) (code_of r) in
    let name = text_ltb_asym l.name r.name in
    let id = text_ltb_asym l.id r.id in
    rw (text_eq_sym (code_of r) (code_of l), text_eq_sym r.name l.name)
      (less_parts (text_eq (code_of l) (code_of r)) (text_eq l.name r.name)
        (text_ltb (code_of l) (code_of r)) (text_ltb l.name r.name) (text_ltb l.id r.id)
        (text_ltb (code_of r) (code_of l)) (text_ltb r.name l.name) (text_ltb r.id l.id) code name
        id h)
  where
    less_parts :
        (same_code same_name c n i c' n' i' : Bool)
        → (c ≡ true → c' ≡ false)
        → (n ≡ true → n' ≡ false)
        → (i ≡ true → i' ≡ false)
        → (if not same_code then c else (if not same_name then n else i)) ≡ true
        → (if not same_code then c' else (if not same_name then n' else i')) ≡ false
    less_parts false same_name c n i c' n' i' hc hn hi h = hc h
    less_parts true false c n i c' n' i' hc hn hi h = hn h
    less_parts true true c n i c' n' i' hc hn hi h = hi h

shift_in-IsInOrderDown :
    (c : CashTransactionCategory) (xs : List CashTransactionCategory)
    → IsInOrderDown xs
    → IsInOrderDown (shift_in c xs)
unfolding shift_in
shift_in-IsInOrderDown c [] h = tt
shift_in-IsInOrderDown c (x ∷ []) h = elim (Bool-cases (category_less c x)) [
  | inl less ↦ rw less (category_less_asym c x less, tt)
  | inr more ↦ rw more (more, tt)
]
shift_in-IsInOrderDown c (x ∷ y ∷ rest) h =
    let deeper = shift_in-IsInOrderDown c (y ∷ rest) h.1 in
    elim (Bool-cases (category_less c x)) [
      | inr more ↦ rw more (more, h)
      | inl less ↦ elim (Bool-cases (category_less c y)) [
        | inl less' ↦ rw (less, less') (h.0, rw less' at deeper)
        | inr more' ↦ rw (less, more') (category_less_asym c x less, rw more' at deeper)
      ]
    ]

sort_onto-IsInOrderDown :
    (sorted xs : List CashTransactionCategory)
    → IsInOrderDown sorted
    → IsInOrderDown (sort_onto sorted xs)
unfolding sort_onto
sort_onto-IsInOrderDown sorted [] h = h
sort_onto-IsInOrderDown sorted (c ∷ rest) h =
    sort_onto-IsInOrderDown (shift_in c sorted) rest (shift_in-IsInOrderDown c sorted h)

abbrev Joins : List CashTransactionCategory → List CashTransactionCategory → Type 0
Joins (c ∷ _) (d ∷ _) = category_less d c ≡ false
Joins _ _ = Unit

turned-IsInOrder :
    (xs onto : List CashTransactionCategory)
    → IsInOrderDown xs
    → IsInOrder onto
    → Joins xs onto
    → IsInOrder (turned xs onto)
turned-IsInOrder [] onto h o j = o
turned-IsInOrder (c ∷ []) [] h o j = tt
turned-IsInOrder (c ∷ []) (d ∷ onto) h o j = (j, o)
turned-IsInOrder (c ∷ b ∷ xs) [] h o j = turned-IsInOrder (b ∷ xs) (c ∷ []) h.1 tt h.0
turned-IsInOrder (c ∷ b ∷ xs) (d ∷ onto) h o j =
    turned-IsInOrder (b ∷ xs) (c ∷ d ∷ onto) h.1 (j, o) h.0

-- How many entries pass a test.
abbrev pub count : (CashTransactionCategory → Bool) → List CashTransactionCategory → ℕ
count test xs = length (keep test xs)

count-shift_in :
    (test : CashTransactionCategory → Bool) (c : CashTransactionCategory)
    (xs : List CashTransactionCategory)
    → count test (shift_in c xs) ≡ count test (c ∷ xs)
unfolding shift_in
count-shift_in test c [] = refl
count-shift_in test c (x ∷ xs) = ground (arith, count-shift_in test c xs)

count-sort_onto :
    (test : CashTransactionCategory → Bool) (sorted xs : List CashTransactionCategory)
    → count test (sort_onto sorted xs) ≡ count test sorted + count test xs
unfolding sort_onto
count-sort_onto test sorted [] = omega arith
count-sort_onto test sorted (c ∷ rest) =
    ground (arith, count-sort_onto test (shift_in c sorted) rest, count-shift_in test c sorted)

count-turned :
    (test : CashTransactionCategory → Bool) (xs onto : List CashTransactionCategory)
    → count test (turned xs onto) ≡ count test xs + count test onto
count-turned test [] onto = omega arith
count-turned test (c ∷ xs) onto = ground (arith, count-turned test xs (c ∷ onto))

-- The sorted categories are in order by code, name and identifier, where a category without a code
-- counts as 999999999, and they are the same categories as before: as many of them pass any test.
pub sort_categories_lem :
    (categories : List CashTransactionCategory) (test : CashTransactionCategory → Bool)
    → IsInOrder (sort_categories categories)
      × (count test (sort_categories categories) ≡ count test categories)
unfolding sort_categories
sort_categories_lem categories test = (
  turned-IsInOrder (sort_onto [] categories) [] (sort_onto-IsInOrderDown [] categories tt) tt
      (joins_none (sort_onto [] categories)),
  ground
      (arith, count-turned test (sort_onto [] categories) [], count-sort_onto test [] categories),
)
  where
    joins_none : (xs : List CashTransactionCategory) → Joins xs []
    joins_none [] = tt
    joins_none (x ∷ xs) = tt
