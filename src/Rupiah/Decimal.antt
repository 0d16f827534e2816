-- ===== src/Rupiah/Decimal.antt =====
-- Decimal numbers as text: `strconv.FormatInt` and the value that `strconv.ParseInt` reads.
use kopdes.Base.{
  ℕ, zero, suc, ◌+◌, ◌-◌, ◌*◌, ◌/◌, ◌%◌, ◌<◌, ◌≡◌, refl, true, false, ltb, if◌then◌else◌, [], ◌∷◌,
  all_of, arith,
}
use kopdes.Base.Text.{Text, is_digit, is_empty}

unfoldable pub value_from : ℕ → Text → ℕ
value_from acc [] = acc
value_from acc (c ∷ r) = value_from (acc * 10 + (c - b'0')) r

unfoldable pub value_of : Text → ℕ
unfolding value_from
value_of = value_from 0

-- The digits of `n` in front of `acc`; the fuel is above `n`.
unfoldable pub format_from : ℕ → ℕ → Text → Text
format_from zero n acc = acc
format_from (suc fuel) n acc =
    let more = format_from fuel (n / 10) ((b'0' + n % 10) ∷ acc) in
    if ltb n 10 then (b'0' + n) ∷ acc else more

unfoldable pub format_int : ℕ → Text
unfolding format_from
format_int n = format_from (suc n) n []

format_from-value :
    (fuel n : ℕ) (acc : Text) → n < fuel → value_from 0 (format_from fuel n acc) ≡ value_from n acc
unfolding format_from value_from
format_from-value zero n acc h = absurd (omega arith)
format_from-value (suc fuel) n acc h =
    ground (arith, format_from-value fuel (n / 10) ((b'0' + n % 10) ∷ acc))

pub value_of-format_int : (n : ℕ) → value_of (format_int n) ≡ n
unfolding value_of format_int value_from
value_of-format_int n = format_from-value (suc n) n [] (omega arith)

-- What is printed is digits, and at least one.
format_from-digits :
    (fuel n : ℕ) (acc : Text)
    → n < fuel
    → all_of is_digit acc ≡ true
    → (is_empty (format_from fuel n acc) ≡ false)
      × (all_of is_digit (format_from fuel n acc) ≡ true)
unfolding format_from
format_from-digits zero n acc h d = absurd (omega arith)
format_from-digits (suc fuel) n acc h d =
    ground (arith, format_from-digits fuel (n / 10) ((b'0' + n % 10) ∷ acc))

pub format_int-digits :
    (n : ℕ) → (is_empty (format_int n) ≡ false) × (all_of is_digit (format_int n) ≡ true)
unfolding format_int
format_int-digits n = format_from-digits (suc n) n [] (omega arith) refl
