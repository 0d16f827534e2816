-- ===== src/Accounting/Live.antt =====
-- The entries that stand for a transaction, through reversals, removals and new amounts
-- (internal/app/repayment_corrections.go).
use kopdes.Base.{
  ℕ, ◌+◌, ◌≤◌, ◌≡◌, refl, sym, ap, ◌∙◌, Bool, true, not, ◌||◌, if◌then◌else◌, none, some, List, [],
  ◌∷◌, ◌++◌, keep, sum_of, sum_of-append, All, arith, inl, inr, Bool-cases, Option-cases,
}
use kopdes.Base.Text.{Text, text_eq, text_eq→eq, text_eq_refl}
use kopdes.Base.Table.{find, update, IsKeyed, sum_of-keep, sum_of-update}
use kopdes.Base.Keyed.{IsKeyed-found, All-map}
use kopdes.Accounting.Types.{Entry}
use kopdes.Accounting.Reversal.{key_of_entry, is_live, is_original, is_reversed, last_of}

module _ (m : ℕ → ℕ) (t type : Text) where
  -- A measure of the amount of an entry that stands for a transaction.
  abbrev pub live_measure : List Entry → Entry → ℕ
  live_measure all e = if is_live t type all e then m e.amount else 0

  -- The measures of the live amounts of a transaction, summed. For all measures, these are the live
  -- amounts themselves, in any order.
  unfoldable pub live_sum : List Entry → ℕ
  live_sum es = sum_of (live_measure es) es

  pub sum_of-same :
      (all all' xs : List Entry)
      → ((id : Text) → is_reversed id all ≡ is_reversed id all')
      → sum_of (live_measure all) xs ≡ sum_of (live_measure all') xs
  sum_of-same all all' [] h = refl
  sum_of-same all all' (x ∷ xs) h =
      let same = sum_of-same all all' xs h in rw (h x.id) (omega (arith, same))

  sum_of-reversed :
      (all all' xs : List Entry) (target : Text)
      → ((id : Text) → is_reversed id all' ≡ (is_reversed id all || text_eq target id))
      → ((x : Entry) → text_eq x.id target ≡ text_eq target x.id)
      → sum_of (live_measure all') xs
        ≡ sum_of (live_measure all) (keep (λ (x : Entry). not (text_eq x.id target)) xs)
  sum_of-reversed all all' [] target h s = refl
  sum_of-reversed all all' (x ∷ xs) target h s =
      let rest = sum_of-reversed all all' xs target h s in
      elim (Bool-cases (text_eq target x.id)) [
        | inl here ↦ ground (arith, h x.id, s x, rest)
        | inr other ↦ ground (arith, h x.id, s x, rest)
      ]

pub is_reversed-append :
    (id : Text) (xs ys : List Entry)
    → is_reversed id (xs ++ ys) ≡ (is_reversed id xs || is_reversed id ys)
is_reversed-append id [] ys = refl
is_reversed-append id (x ∷ xs) ys = ground (arith, is_reversed-append id xs ys)

pub is_reversed-update :
    (id k : Text) (f : Entry → Entry) (xs : List Entry)
    → ((x : Entry) → (f x).reversal_of ≡ x.reversal_of)
    → is_reversed id (update key_of_entry k f xs) ≡ is_reversed id xs
unfolding update
is_reversed-update id k f [] h = refl
is_reversed-update id k f (x ∷ xs) h = elim (Bool-cases (text_eq x.id k)) [
  | inl here ↦ rw (here, h x) refl
  | inr later ↦ rw (later, is_reversed-update id k f xs h) refl
]

is_reversed-keep :
    (id k : Text) (xs : List Entry)
    → All (λ (x : Entry). text_eq x.id k ≡ true → is_original x.reversal_of ≡ true) xs
    → is_reversed id (keep (λ (x : Entry). not (text_eq x.id k)) xs) ≡ is_reversed id xs
is_reversed-keep id k [] h = refl
is_reversed-keep id k (x ∷ xs) h = elim (Bool-cases (text_eq x.id k)) [
  | inl here ↦ elim (Option-cases x.reversal_of) [
    | inl none_of ↦ ground (arith, is_reversed-keep id k xs h.1)
    | inr (r, e) ↦ absurd (ground (arith, h.0 here))
  ]
  | inr other ↦ ground (arith, is_reversed-keep id k xs h.1)
]

-- The last entry that passes a test.
pub last_of-All {κ} :
    (P : Entry → Type κ) (test : Entry → Bool) (xs : List Entry) {e : Entry}
    → last_of test xs ≡ some e
    → All P xs
    → P e × (test e ≡ true)
last_of-All P test [] h all = absurd (ground arith)
last_of-All P test (x ∷ xs) {e} h all = elim (Option-cases (last_of test xs)) [
  | inl missing ↦ elim (Bool-cases (test x)) [
    | inl yes_ ↦ let same : x ≡ e = ground arith in (rw same at all.0, rw same at yes_)
    | inr no_ ↦ absurd (ground arith)
  ]
  | inr (l, later) ↦
      let same : l ≡ e = ground arith in
      let (p, passed) = last_of-All P test xs {e = l} later all.1 in
      (rw same at p, rw same at passed)
]

text_eq_comm : (s t : Text) → text_eq s t ≡ text_eq t s
text_eq_comm s t = elim (Bool-cases (text_eq s t)) [
  | inl same ↦ rw (text_eq→eq s t same) refl
  | inr other ↦ elim (Bool-cases (text_eq t s)) [
    | inl same ↦ rw (text_eq→eq t s same) refl
    | inr other' ↦ other ∙ sym other'
  ]
]

-- An entry found under its identifier that stands for a transaction.
pub record Stands (es : List Entry) (t type : Text) (e : Entry) : Type 0 where
  pub row : find key_of_entry e.id es ≡ some e
  pub live : is_live t type es e ≡ true

pub last_of-Stands :
    (t type : Text) (es : List Entry) {e : Entry}
    → IsKeyed key_of_entry es
    → last_of (is_live t type es) es ≡ some e
    → Stands es t type e
last_of-Stands t type es {e} keyed h =
    let (row, live) =
      last_of-All (λ x. find key_of_entry x.id es ≡ some x) (is_live t type es) es {e = e} h
        (IsKeyed-found key_of_entry es keyed) in
    record { row = row; live = live }

module _ (m : ℕ → ℕ) (type : Text) (es : List Entry) where
  sum_of-none :
      (t : Text) (xs : List Entry)
      → last_of (is_live t type es) xs ≡ none
      → sum_of (live_measure m t type es) xs ≡ 0
  sum_of-none t [] h = refl
  sum_of-none t (x ∷ xs) h = elim (Option-cases (last_of (is_live t type es) xs)) [
    | inl missing ↦ ground (arith, sum_of-none t xs missing)
    | inr (l, later) ↦ absurd (ground arith)
  ]

  -- Without an entry that stands for the transaction, nothing is live.
  pub live_sum-none : (t : Text) → last_of (is_live t type es) es ≡ none → live_sum m t type es ≡ 0
  unfolding live_sum
  live_sum-none t h = sum_of-none t es h

  module _ (t : Text) (e : Entry) (s : Stands es t type e) (keyed : IsKeyed key_of_entry es) where
    own_measure : (u : Text) → live_measure m u type es e ≡ (if text_eq t u then m e.amount else 0)
    own_measure u =
        let named : e.transaction_id ≡ t = text_eq→eq e.transaction_id t (ground (arith, s.live)) in
        rw named (ground (arith, s.live))

    live_sum-split :
        (u : Text)
        → live_sum m u type es
          ≡ (if text_eq t u then m e.amount else 0)
            + sum_of (live_measure m u type es) (keep (λ (x : Entry). not (text_eq x.id e.id)) es)
    unfolding live_sum
    live_sum-split u =
        let whole = sum_of-keep key_of_entry (live_measure m u type es) e.id es s.row keyed in
        omega (arith, whole, own_measure u)

    -- It is one of the live ones.
    pub live_sum_own : m e.amount ≤ live_sum m t type es
    live_sum_own = let whole = rw (text_eq_refl t) at (live_sum-split t) in omega (arith, whole)

    -- Entries that reverse it take its place.
    pub live_sum-reversed :
        (more : List Entry)
        → ((id : Text) → is_reversed id more ≡ text_eq e.id id)
        → (u : Text)
        → live_sum m u type (es ++ more) + (if text_eq t u then m e.amount else 0)
          ≡ live_sum m u type es + sum_of (live_measure m u type (es ++ more)) more
    live_sum-reversed more h u =
        let split = live_sum-split u in
        let both = sum_of-append (live_measure m u type (es ++ more)) es more in
        let others =
          sum_of-reversed m u type es (es ++ more) es e.id
            (λ id. is_reversed-append id es more ∙ ap (λ (b : Bool). is_reversed id es || b) (h id))
            (λ x. text_eq_comm x.id e.id) in
        unfold live_sum in omega (arith, split, both, others)

    originals : All (λ (x : Entry). text_eq x.id e.id ≡ true → is_original x.reversal_of ≡ true) es
    originals =
        All-map (λ (x : Entry). find key_of_entry x.id es ≡ some x) _ es
          (λ x row here.
            let row' : find key_of_entry e.id es ≡ some x =
              ap (λ (k : Text). find key_of_entry k es) (sym (text_eq→eq x.id e.id here)) ∙ row in
            let same : x ≡ e = ground (arith, row', s.row) in rw same (ground (arith, s.live)))
          (IsKeyed-found key_of_entry es keyed)

    -- Its removal leaves the others as they are.
    pub is_reversed-removed :
        (id : Text)
        → is_reversed id (keep (λ (x : Entry). not (text_eq x.id e.id)) es) ≡ is_reversed id es
    is_reversed-removed id = is_reversed-keep id e.id es originals

    -- Its removal takes it away.
    pub live_sum-removed :
        (u : Text)
        → live_sum m u type (keep (λ (x : Entry). not (text_eq x.id e.id)) es)
            + (if text_eq t u then m e.amount else 0)
          ≡ live_sum m u type es
    live_sum-removed u =
        let split = live_sum-split u in
        let rest = keep (λ (x : Entry). not (text_eq x.id e.id)) es in
        let same = sum_of-same m u type rest es rest is_reversed-removed in
        unfold live_sum in omega (arith, split, same)

    -- Its amount may change.
    pub live_sum-amended :
        (f : Entry → Entry)
        → ((x : Entry) → (f x).reversal_of ≡ x.reversal_of)
        → ((x : Entry) → (f x).id ≡ x.id)
        → ((x : Entry) → (f x).transaction_id ≡ x.transaction_id)
        → ((x : Entry) → (f x).transaction_type ≡ x.transaction_type)
        → (u : Text)
        → live_sum m u type (update key_of_entry e.id f es)
            + (if text_eq t u then m e.amount else 0)
          ≡ live_sum m u type es + (if text_eq t u then m (f e).amount else 0)
    live_sum-amended f reversal id tx kind u =
        let es' = update key_of_entry e.id f es in
        let same = sum_of-same m u type es' es es' (λ j. is_reversed-update j e.id f es reversal) in
        let whole = sum_of-update key_of_entry (live_measure m u type es) e.id f es s.row in
        let own = own_measure u in
        let own' : live_measure m u type es (f e) ≡ (if text_eq t u then m (f e).amount else 0) =
          let named : e.transaction_id ≡ t =
            text_eq→eq e.transaction_id t (ground (arith, s.live)) in
          rw (reversal e, id e, tx e, kind e, named) (ground (arith, s.live)) in
        unfold live_sum in omega (arith, same, whole, own, own')
