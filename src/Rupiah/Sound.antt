-- ===== src/Rupiah/Sound.antt =====
-- What `parseRupiahAmount` of internal/app/rupiah.go accepts.
use kopdes.Base.{
  ℕ, ◌≤◌, ◌≡◌, refl, Bool, true, false, ◌&&◌, ◌==◌, List, [], ◌∷◌, ◌++◌, all_of, keep, length, some,
  max_int64, ok, arith, ◌∙◌, sym, inl, inr, Bool-cases, Option-cases,
}
use kopdes.Base.Text.{Text, is_digit, trim_space, keep-trim_space}
use kopdes.Rupiah.Decimal.{value_of}
use kopdes.Rupiah.{
  split, onto_first, join, ascii_digits, strip_rp, valid_groups, amount_digits, parse_rupiah_amount,
}

keep-digits : (t : Text) → all_of is_digit t ≡ true → keep is_digit t ≡ t
keep-digits [] h = refl
keep-digits (c ∷ r) h = ground (arith, keep-digits r)

join-onto_first : (c : ℕ) (gs : List Text) → join (onto_first c gs) ≡ c ∷ join gs
join-onto_first c [] = refl
join-onto_first c (g ∷ gs) = refl

keep-join-split :
    (s : ℕ) (t : Text) → is_digit s ≡ false → keep is_digit (join (split s t)) ≡ keep is_digit t
unfolding split
keep-join-split s [] h = refl
keep-join-split s (c ∷ r) h = elim (Bool-cases (c == s)) [
  | inl same ↦ rw same (ground (arith, keep-join-split s r h))
  | inr other ↦ rw (other, join-onto_first) (ground (arith, keep-join-split s r h))
]

all_of-append :
    (s t : Text)
    → all_of is_digit s ≡ true
    → all_of is_digit t ≡ true
    → all_of is_digit (s ++ t) ≡ true
all_of-append [] t h k = k
all_of-append (c ∷ s) t h k = ground (arith, all_of-append s t)

abbrev is_group : Text → Bool
is_group t = length t == 3 && ascii_digits t

join-digits : (gs : List Text) → all_of is_group gs ≡ true → all_of is_digit (join gs) ≡ true
join-digits [] h = refl
join-digits (g ∷ gs) h =
    all_of-append g (join gs) (unfold ascii_digits in ground arith) (join-digits gs (ground arith))

valid_groups-digits : (gs : List Text) → valid_groups gs ≡ true → all_of is_digit (join gs) ≡ true
unfolding valid_groups
valid_groups-digits [] h = cc
valid_groups-digits (g ∷ []) h = cc
valid_groups-digits (g ∷ h ∷ gs) e =
    all_of-append g (join (h ∷ gs)) (ground arith)
      (join-digits (h ∷ gs) (unfold ascii_digits in ground arith))

keep-strip_rp : (t : Text) → keep is_digit (strip_rp t) ≡ keep is_digit t
unfolding strip_rp
keep-strip_rp [] = refl
keep-strip_rp (a ∷ []) = refl
keep-strip_rp (a ∷ b ∷ r) = ground (arith, keep-trim_space r)

grouped :
    (s : ℕ) (t : Text)
    → is_digit s ≡ false
    → valid_groups (split s t) ≡ true
    → join (split s t) ≡ keep is_digit t
grouped s t h v =
    sym (keep-digits (join (split s t)) (valid_groups-digits (split s t) v)) ∙ keep-join-split s t h

plain : (t : Text) → ascii_digits t ≡ true → keep is_digit t ≡ t
unfolding ascii_digits
plain t h = keep-digits t (ground arith)

amount_digits-keep : (t d : Text) → amount_digits t ≡ some d → d ≡ keep is_digit t
unfolding amount_digits
amount_digits-keep t d h = ground (arith, grouped b',' t refl, grouped b'.' t refl, plain t)

-- An accepted amount is the number that the digits of the input spell, whatever blanks, prefix and
-- separators stand around them, and fits an int64.
pub parse_rupiah_amount_sound :
    (raw : Text) (n : ℕ)
    → parse_rupiah_amount raw ≡ ok n
    → (n ≡ value_of (keep is_digit raw)) × (n ≤ max_int64)
unfolding parse_rupiah_amount
parse_rupiah_amount_sound raw n h =
    let value : Text = strip_rp (trim_space raw) in
    elim (Option-cases (amount_digits value)) [
      | inl bad ↦ ground arith
      | inr (d, e) ↦
          ground (
            arith,
            amount_digits-keep value d e,
            keep-strip_rp (trim_space raw),
            keep-trim_space raw,
          )
    ]
