-- ===== src/Rupiah.antt =====
-- Rupiah amounts of browser forms: internal/app/rupiah.go.
pub mod Decimal
pub mod Sound
pub mod RoundTrip
use kopdes.Base.{
  ℕ, zero, suc, ◌+◌, ◌-◌, ◌*◌, ◌/◌, ◌%◌, Bool, true, false, not, ◌&&◌, ◌||◌, ltb, leb, ◌==◌,
  if◌then◌else◌, List, [], ◌∷◌, ◌++◌, all_of, length, Option, none, some, max_int64, Result, ok,
  err, ◌>>=◌, ◌>>◌, reject_if,
}
use kopdes.Base.Text.{Text, is_digit, is_empty, trim_space, to_lower, text_eq}
use kopdes.Rupiah.Decimal.{value_of, format_int}

pub data RupiahError : Type 0 where
  invalid_rupiah_amount : RupiahError

-- `strings.ContainsRune` for one code point
abbrev pub contains : ℕ → Text → Bool
contains c [] = false
contains c (d ∷ r) = c == d || contains c r

abbrev pub onto_first : ℕ → List Text → List Text
onto_first c [] = (c ∷ []) ∷ []
onto_first c (g ∷ gs) = (c ∷ g) ∷ gs

-- `strings.Split` at one code point
unfoldable pub split : ℕ → Text → List Text
split s [] = [] ∷ []
split s (c ∷ r) = let groups = split s r in if c == s then [] ∷ groups else onto_first c groups

abbrev pub join : List Text → Text
join [] = []
join (g ∷ gs) = g ++ join gs

-- `asciiDigits`
unfoldable pub ascii_digits : Text → Bool
ascii_digits t = not (is_empty t) && all_of is_digit t

-- The prefix "rp", in any case, and the blanks behind it.
unfoldable pub strip_rp : Text → Text
strip_rp (a ∷ b ∷ r) =
    if (a == b'r' || a == b'R') && (b == b'p' || b == b'P') then trim_space r else a ∷ b ∷ r
strip_rp t = t

-- Groups of three digits behind a first one of one to three.
unfoldable pub valid_groups : List Text → Bool
unfolding ascii_digits
valid_groups [] = false
valid_groups (g ∷ []) = false
valid_groups (g ∷ h ∷ gs) =
    leb 1 (length g)
    && leb (length g) 3
    && ascii_digits g
    && all_of (λ (t : Text). length t == 3 && ascii_digits t) (h ∷ gs)

-- The digits of an amount with or without separators.
unfoldable pub amount_digits : Text → Option Text
unfolding split valid_groups ascii_digits
amount_digits value =
    let has_dot = contains b'.' value in
    let has_comma = contains b',' value in
    let groups = split (if has_comma then b',' else b'.') value in
    if has_dot && has_comma
    then none
    else (if has_dot || has_comma
        then (if valid_groups groups then some (join groups) else none)
        else (if ascii_digits value then some value else none))

-- `strconv.ParseInt(digits, 10, 64)` on digits
unfoldable pub parse_int : Text → Result RupiahError ℕ
parse_int digits =
    let n = value_of digits in if leb n max_int64 then ok n else err invalid_rupiah_amount

abbrev pub or_invalid : Option Text → Result RupiahError Text
or_invalid none = err invalid_rupiah_amount
or_invalid (some t) = ok t

-- `parseRupiahAmount`
unfoldable pub parse_rupiah_amount : Text → Result RupiahError ℕ
unfolding parse_int
parse_rupiah_amount raw = do
  let value = strip_rp (trim_space raw)
  reject_if
      (is_empty value
        || contains 32 value
        || contains 9 value
        || contains 13 value
        || contains 10 value)
      invalid_rupiah_amount
  digits ← or_invalid (amount_digits value)
  parse_int digits

-- What `bindRequestWithRupiahAmount` writes back into a browser form's field.
unfoldable pub normalize_rupiah_field : Text → Result RupiahError Text
normalize_rupiah_field raw_field = do
  let raw_amount = if is_empty (trim_space raw_field) then b'0' ∷ [] else raw_field
  amount ← parse_rupiah_amount raw_amount
  reject_if (amount == 0) invalid_rupiah_amount
  ok (format_int amount)
