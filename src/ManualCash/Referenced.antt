-- ===== src/ManualCash/Referenced.antt =====
-- The reference numbers of `nextManualCashReference` (internal/app/manual_cash_transactions.go).
use kopdes.Base.{
  ℕ, zero, suc, ◌≤◌, ◌<◌, ◌≡◌, refl, ap, ◌∙◌, leb, Bool, true, false, List, [], ◌∷◌, ◌++◌, length,
  keep, ok, arith, inl, inr, Bool-cases,
}
use kopdes.Base.Text.{Text, text_eq, text_eq→eq}
use kopdes.Rupiah.Decimal.{value_of, value_from, format_int, value_of-format_int}
use kopdes.ManualCash.{
  CashTransaction, CashDesk, candidate, pad_four, has_reference, next_free, sequence_of,
  set_sequence, manual_cash_reference_prefix, next_manual_cash_reference,
}

-- What follows a prefix.
abbrev past : Text → Text → Text
past [] r = r
past (_ ∷ p) [] = []
past (_ ∷ p) (_ ∷ r) = past p r

past-append : (p r : Text) → past p (p ++ r) ≡ r
past-append [] r = refl
past-append (_ ∷ p) r = past-append p r

pad_four-value : (t : Text) → value_of (pad_four t) ≡ value_of t
unfolding pad_four value_of value_from
pad_four-value [] = refl
pad_four-value (a ∷ []) = refl
pad_four-value (a ∷ b ∷ []) = refl
pad_four-value (a ∷ b ∷ c ∷ []) = refl
pad_four-value (a ∷ b ∷ c ∷ d ∷ r) = refl

-- The number of a reference under a prefix.
abbrev number_of : Text → Text → ℕ
number_of prefix reference = value_of (past prefix reference)

number_of-candidate : (prefix : Text) (n : ℕ) → number_of prefix (candidate prefix n) ≡ n
number_of-candidate prefix n =
    ap value_of (past-append prefix (pad_four (format_int n)))
    ∙ pad_four-value (format_int n)
    ∙ value_of-format_int n

-- The transactions with a number from a given one on.
abbrev ahead : Text → ℕ → List CashTransaction → ℕ
ahead prefix n rows =
    length (keep (λ (t : CashTransaction). leb n (number_of prefix t.reference_no)) rows)

ahead_mono :
    (prefix : Text) (n : ℕ) (rows : List CashTransaction)
    → ahead prefix (suc n) rows ≤ ahead prefix n rows
ahead_mono prefix n [] = omega arith
ahead_mono prefix n (t ∷ rows) = ground (arith, ahead_mono prefix n rows)

ahead_taken :
    (prefix : Text) (n : ℕ) (rows : List CashTransaction)
    → has_reference (candidate prefix n) rows ≡ true
    → ahead prefix (suc n) rows < ahead prefix n rows
ahead_taken prefix n [] h = absurd (ground arith)
ahead_taken prefix n (t ∷ rows) h =
    elim (Bool-cases (text_eq t.reference_no (candidate prefix n))) [
      | inl here ↦
          let number : number_of prefix t.reference_no ≡ n =
            ap (number_of prefix) (text_eq→eq t.reference_no (candidate prefix n) here)
            ∙ number_of-candidate prefix n in
          ground (arith, number, ahead_mono prefix n rows)
      | inr later ↦ ground (arith, ahead_taken prefix n rows, ahead_mono prefix n rows)
    ]

length-keep :
    (test : CashTransaction → Bool) (rows : List CashTransaction)
    → length (keep test rows) ≤ length rows
length-keep test [] = omega arith
length-keep test (t ∷ rows) = ground (arith, length-keep test rows)

next_free-ends :
    (rows : List CashTransaction) (prefix : Text) (fuel n : ℕ)
    → ahead prefix n rows < fuel
    → (reference : Text) × (next : ℕ) × (next_free rows prefix fuel n ≡ ok (reference, next))
      × (has_reference reference rows ≡ false)
      × (n < next)
unfolding next_free
next_free-ends rows prefix zero n le = absurd (omega (arith, le))
next_free-ends rows prefix (suc fuel) n le =
    elim (Bool-cases (has_reference (candidate prefix n) rows)) [
      | inl taken ↦
          let (reference, next, e, free, later) =
            next_free-ends rows prefix fuel (suc n)
              (omega (arith, le, ahead_taken prefix n rows taken)) in
          (reference, next, rw taken e, free, omega (arith, later))
      | inr free ↦ (candidate prefix n, suc n, rw free refl, free, omega arith)
    ]

-- For a date that is one, the next reference number is always found, within as many tries as there
-- are transactions and one more; no transaction has it, and the number kept for the date grows.
pub next_manual_cash_reference-ends :
    (desk : CashDesk) (date prefix : Text)
    → manual_cash_reference_prefix date ≡ ok prefix
    → (reference : Text) × (next : ℕ) × (next_manual_cash_reference desk date
        ≡ ok (reference, set_sequence date next desk.sequences))
      × (has_reference reference desk.transactions ≡ false)
      × (sequence_of date desk.sequences < next)
unfolding next_manual_cash_reference
next_manual_cash_reference-ends desk date prefix dated =
    let start = sequence_of date desk.sequences in
    let bound =
      length-keep (λ (t : CashTransaction). leb start (number_of prefix t.reference_no))
        desk.transactions in
    let (reference, next, e, free, later) =
      next_free-ends desk.transactions prefix (suc (length desk.transactions)) start
        (omega (arith, bound)) in
    (reference, next, rw (dated, e) refl, free, later)
