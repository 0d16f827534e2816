-- ===== src/Accounting/Topmost.antt =====
-- Ledgers in which no later entry of a transaction hides the one that stands, so that a query for the
-- last entry that reverses none finds it (internal/app/saving_corrections.go).
use kopdes.Base.{
  ℕ, ◌≡◌, ◌∙◌, sym, refl, Bool, true, false, not, some, none, List, [], ◌∷◌, ◌++◌, keep, sum_of,
  All, arith, inl, inr, Bool-cases, Option-cases,
}
use kopdes.Base.Text.{Text, text_eq, text_eq→eq, text_eq_refl}
use kopdes.Base.Table.{update, IsKeyed}
use kopdes.Accounting.Types.{Entry}
use kopdes.Accounting.Reversal.{
  key_of_entry, is_live, is_source, is_original, is_reversed, last_of, has_entry,
}
use kopdes.Accounting.Live.{
  Stands, live_sum, live_measure, is_reversed-append, is_reversed-update, is_reversed-removed,
}
use kopdes.Accounting.Standing.{Amends}

module _ (type : Text) where
  -- After an entry that stands there is no other of its transaction that reverses none.
  abbrev pub AllTop : List Entry → List Entry → Type 0
  AllTop all [] = Unit
  AllTop all (x ∷ rest) =
      (is_live x.transaction_id type all x ≡ true
        → has_entry (is_source x.transaction_id type) rest ≡ false)
      × AllTop all rest

  abbrev pub IsTop : List Entry → Type 0
  IsTop es = AllTop es es

  last_of-nothing :
      (test : Entry → Bool) (xs : List Entry) → has_entry test xs ≡ false → last_of test xs ≡ none
  last_of-nothing test [] h = refl
  last_of-nothing test (x ∷ xs) h = ground (arith, last_of-nothing test xs)

  -- The entry that stands is the last that reverses none.
  pub last_of-source :
      (t : Text) (all xs : List Entry) {e : Entry}
      → AllTop all xs
      → last_of (is_live t type all) xs ≡ some e
      → last_of (is_source t type) xs ≡ some e
  last_of-source t all [] {e} top h = absurd (ground arith)
  last_of-source t all (x ∷ xs) {e} top h = elim (Option-cases (last_of (is_live t type all) xs)) [
    | inr (l, later) ↦
        let deeper = last_of-source t all xs {e = l} top.1 later in ground (arith, deeper)
    | inl missing ↦ elim (Bool-cases (is_live t type all x)) [
      | inr dead ↦ absurd (ground arith)
      | inl live ↦
          let named : x.transaction_id ≡ t = text_eq→eq x.transaction_id t (ground arith) in
          let own : is_live x.transaction_id type all x ≡ true =
            ground (arith, live, text_eq_refl x.transaction_id) in
          let alone = last_of-nothing (is_source t type) xs (rw named at (top.0 own)) in
          ground (arith, alone)
    ]
  ]

  -- Entries may be reversed, and one may come that is of another transaction than those that stand.
  append_one-AllTop :
      (all all' xs : List Entry) (y : Entry)
      → ((id : Text) → is_reversed id all' ≡ false → is_reversed id all ≡ false)
      → All
          (λ (x : Entry).
            is_live x.transaction_id type all x ≡ true
            → has_entry (is_source x.transaction_id type) (y ∷ []) ≡ false)
          xs
      → AllTop all xs
      → AllTop all' (xs ++ y ∷ [])
  append_one-AllTop all all' [] y mono apart top = (λ _. refl, tt)
  append_one-AllTop all all' (x ∷ xs) y mono apart top = (
    λ live.
        let before : is_live x.transaction_id type all x ≡ true = ground (arith, mono x.id) in
        has_entry-append_one (is_source x.transaction_id type) xs y (top.0 before) (apart.0 before),
    append_one-AllTop all all' xs y mono apart.1 top.1,
  )
    where
      has_entry-append_one :
          (test : Entry → Bool) (xs : List Entry) (y : Entry)
          → has_entry test xs ≡ false
          → has_entry test (y ∷ []) ≡ false
          → has_entry test (xs ++ y ∷ []) ≡ false
      has_entry-append_one test [] y h k = k
      has_entry-append_one test (x ∷ xs) y h k = ground (arith, has_entry-append_one test xs y)

  -- A reversal comes.
  pub reversed-IsTop :
      (es : List Entry) (r : Entry)
      → is_original r.reversal_of ≡ false
      → IsTop es
      → IsTop (es ++ r ∷ [])
  reversed-IsTop es r reversal top =
      append_one-AllTop es (es ++ r ∷ []) es r
        (λ id h. ground (arith, is_reversed-append id es (r ∷ []))) (every es) top
    where
      every :
          (xs : List Entry)
          → All
              (λ (x : Entry).
                is_live x.transaction_id type es x ≡ true
                → has_entry (is_source x.transaction_id type) (r ∷ []) ≡ false)
              xs
      every [] = tt
      every (x ∷ xs) = (λ live. ground (arith, reversal), every xs)

  -- An entry comes for a transaction for which none stands.
  pub entered-IsTop :
      (es : List Entry) (c : Entry)
      → live_sum (λ _. 1) c.transaction_id type es ≡ 0
      → IsTop es
      → IsTop (es ++ c ∷ [])
  unfolding live_sum
  entered-IsTop es c nothing top =
      append_one-AllTop es (es ++ c ∷ []) es c
        (λ id h. ground (arith, is_reversed-append id es (c ∷ []))) (every es nothing) top
    where
      every :
          (xs : List Entry)
          → sum_of (live_measure (λ _. 1) c.transaction_id type es) xs ≡ 0
          → All
              (λ (x : Entry).
                is_live x.transaction_id type es x ≡ true
                → has_entry (is_source x.transaction_id type) (c ∷ []) ≡ false)
              xs
      every [] h = tt
      every (x ∷ xs) h = (
        λ live. elim (Bool-cases (text_eq c.transaction_id x.transaction_id)) [
          | inr other ↦ ground (arith, other)
          | inl same ↦
              let named = text_eq→eq c.transaction_id x.transaction_id same in
              let own : is_live c.transaction_id type es x ≡ true = rw named live in
              absurd (ground (arith, own, h))
        ],
        every xs (omega (arith, h)),
      )

  -- An entry changes in what does not tell it.
  pub amended-IsTop :
      (es : List Entry) (k : Text) (f : Entry → Entry) {n : ℕ}
      → Amends f n
      → IsTop es
      → IsTop (update key_of_entry k f es)
  unfolding update
  amended-IsTop es k f {n} a top = every es top
    where
      after : List Entry
      after = update key_of_entry k f es

      same : (id : Text) → is_reversed id after ≡ is_reversed id es
      same id = is_reversed-update id k f es a.same_reversal

      has_entry-update :
          (t : Text) (xs : List Entry)
          → has_entry (is_source t type) (update key_of_entry k f xs)
            ≡ has_entry (is_source t type) xs
      has_entry-update t [] = refl
      has_entry-update t (x ∷ xs) = elim (Bool-cases (text_eq x.id k)) [
        | inl here ↦ rw (here, a.same_transaction x, a.same_type x, a.same_reversal x) refl
        | inr later ↦ rw (later, has_entry-update t xs) refl
      ]

      still :
          (x : Entry) → is_live x.transaction_id type after x ≡ is_live x.transaction_id type es x
      still x = rw (same x.id) refl

      carried : (xs : List Entry) → AllTop es xs → AllTop after xs
      carried [] top = tt
      carried (x ∷ xs) top = (λ live. top.0 (sym (still x) ∙ live), carried xs top.1)

      every : (xs : List Entry) → AllTop es xs → AllTop after (update key_of_entry k f xs)
      every [] top = tt
      every (x ∷ xs) top = elim (Bool-cases (text_eq x.id k)) [
        | inl here ↦ rw here (
          λ live.
              let own : is_live x.transaction_id type after x ≡ true =
                rw (a.same_id x, a.same_transaction x, a.same_type x, a.same_reversal x) at live in
              rw (a.same_transaction x) (top.0 (sym (still x) ∙ own)),
          carried xs top.1,
        )
        | inr later ↦ rw later (
          λ live. has_entry-update x.transaction_id xs ∙ top.0 (sym (still x) ∙ live),
          every xs top.1,
        )
      ]

  -- The entry that stands for a transaction is removed.
  pub removed-IsTop :
      (es : List Entry) (t : Text) (e : Entry)
      → Stands es t type e
      → IsKeyed key_of_entry es
      → IsTop es
      → IsTop (keep (λ (x : Entry). not (text_eq x.id e.id)) es)
  removed-IsTop es t e s keyed top = every es top
    where
      test : Entry → Bool
      test x = not (text_eq x.id e.id)

      has_entry-keep :
          (p : Entry → Bool) (xs : List Entry)
          → has_entry p xs ≡ false
          → has_entry p (keep test xs) ≡ false
      has_entry-keep p [] h = refl
      has_entry-keep p (x ∷ xs) h = elim (Bool-cases (test x)) [
        | inl kept ↦ rw kept (ground (arith, has_entry-keep p xs))
        | inr dropped ↦ rw dropped (has_entry-keep p xs (ground arith))
      ]

      still :
          (x : Entry)
          → is_live x.transaction_id type (keep test es) x ≡ is_live x.transaction_id type es x
      still x = rw (is_reversed-removed (λ _. 0) type es t e s keyed x.id) refl

      every : (xs : List Entry) → AllTop es xs → AllTop (keep test es) (keep test xs)
      every [] top = tt
      every (x ∷ xs) top = elim (Bool-cases (test x)) [
        | inl kept ↦ rw kept (
          λ live.
              has_entry-keep (is_source x.transaction_id type) xs (top.0 (sym (still x) ∙ live)),
          every xs top.1,
        )
        | inr dropped ↦ rw dropped (every xs top.1)
      ]
