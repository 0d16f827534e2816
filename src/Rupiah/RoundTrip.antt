-- ===== src/Rupiah/RoundTrip.antt =====
-- Printing against parsing of amounts (internal/app/rupiah.go).
use kopdes.Base.{
  ℕ, ◌≤◌, ◌<◌, ◌≡◌, refl, true, false, [], ◌∷◌, all_of, keep, max_int64, ok, arith, ap, ◌∙◌, inl,
  inr, Bool-cases, Result-cases, le→leb,
}
use kopdes.Base.Text.{
  Text, is_digit, is_empty, trim_left, trim_right, trim_space, is_space-not_digit,
}
use kopdes.Rupiah.Decimal.{value_of, format_int, value_of-format_int, format_int-digits}
use kopdes.Rupiah.Sound.{parse_rupiah_amount_sound}
use kopdes.Rupiah.{contains, strip_rp, amount_digits, parse_rupiah_amount, normalize_rupiah_field}

trim_left-digits : (t : Text) → all_of is_digit t ≡ true → trim_left t ≡ t
unfolding trim_left
trim_left-digits [] h = refl
trim_left-digits (c ∷ r) h = ground (arith, is_space-not_digit c)

trim_right-digits : (t : Text) → all_of is_digit t ≡ true → trim_right t ≡ t
unfolding trim_right
trim_right-digits [] h = refl
trim_right-digits (c ∷ r) h = ground (arith, is_space-not_digit c, trim_right-digits r)

trim_space-digits : (t : Text) → all_of is_digit t ≡ true → trim_space t ≡ t
unfolding trim_space
trim_space-digits t h = rw (trim_left-digits t h) (trim_right-digits t h)

strip_rp-digits : (t : Text) → all_of is_digit t ≡ true → strip_rp t ≡ t
unfolding strip_rp
strip_rp-digits [] h = refl
strip_rp-digits (a ∷ []) h = refl
strip_rp-digits (a ∷ b ∷ r) h = ground arith

contains-digits :
    (c : ℕ) (t : Text) → is_digit c ≡ false → all_of is_digit t ≡ true → contains c t ≡ false
contains-digits c [] n h = refl
contains-digits c (d ∷ r) n h = ground (arith, contains-digits c r n)

-- A text of digits is read as the number that it spells, if that fits an int64.
pub parse_rupiah_amount-digits :
    (t : Text)
    → is_empty t ≡ false
    → all_of is_digit t ≡ true
    → value_of t ≤ max_int64
    → parse_rupiah_amount t ≡ ok (value_of t)
unfolding parse_rupiah_amount amount_digits
parse_rupiah_amount-digits t e h m = rw (
  trim_space-digits t h,
  strip_rp-digits t h,
  e,
  contains-digits 32 t refl h,
  contains-digits 9 t refl h,
  contains-digits 13 t refl h,
  contains-digits 10 t refl h,
  contains-digits b'.' t refl h,
  contains-digits b',' t refl h,
  h,
  le→leb (value_of t) max_int64 m,
)

-- Every int64 that is not negative is read back from its printed form.
pub parse_rupiah_amount-format_int :
    (n : ℕ) → n ≤ max_int64 → parse_rupiah_amount (format_int n) ≡ ok n
parse_rupiah_amount-format_int n h =
    let (e, d) = format_int-digits n in
    let v : value_of (format_int n) ≡ n = value_of-format_int n in
    parse_rupiah_amount-digits (format_int n) e d (rw v h) ∙ ap ok v

normalize_rupiah_field-format_int :
    (n : ℕ) → 0 < n → n ≤ max_int64 → normalize_rupiah_field (format_int n) ≡ ok (format_int n)
unfolding normalize_rupiah_field value_of
normalize_rupiah_field-format_int n p h =
    let (e, d) = format_int-digits n in
    rw (trim_space-digits (format_int n) d, e, parse_rupiah_amount-format_int n h) (ground arith)

-- The field that a browser form's amount is rewritten to is the printed form of a positive int64,
-- the number that the digits of the input spell; it parses to that number, and rewriting it again
-- changes nothing.
pub normalize_rupiah_field_lem :
    (raw t : Text)
    → normalize_rupiah_field raw ≡ ok t
    → let n = value_of (keep is_digit raw) in
      (0 < n)
      × (t ≡ format_int n)
      × (parse_rupiah_amount t ≡ ok n)
      × (normalize_rupiah_field t ≡ ok t)
unfolding normalize_rupiah_field value_of
normalize_rupiah_field_lem raw t h = elim (Bool-cases (is_empty (trim_space raw))) [
  | inl blank ↦
      let zero_read : parse_rupiah_amount (b'0' ∷ []) ≡ ok 0 =
        parse_rupiah_amount-digits (b'0' ∷ []) refl refl (unfold value_of in omega arith) in
      ground arith
  | inr written ↦ elim (Result-cases (parse_rupiah_amount raw)) [
    | inl (n, e) ↦
        let (v, m) = parse_rupiah_amount_sound raw n e in
        ground
          (arith, v, m, parse_rupiah_amount-format_int n m, normalize_rupiah_field-format_int n)
    | inr (x, e) ↦ ground arith
  ]
]
