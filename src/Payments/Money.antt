-- ===== src/Payments/Money.antt =====
-- app/domain/payments.py, `validate_money`: exact money with at most two decimal places. An amount
-- that was accepted is a number of hundredths.
use lanrouge_nails_bot.Base.{
  ℕ, ◌+◌, ◌-◌, ◌*◌, ◌^◌, Bool, true, false, not, ◌&&◌, ◌||◌, List, [], ◌∷◌, ◌++◌, ltb, leb, ◌==◌,
  if◌then◌else◌,
}
use lanrouge_nails_bot.Errors.{Result, ok, err, value_error, ◌>>◌, raise_if}
use lanrouge_nails_bot.Text.{Text, strip}
pub mod Exact

-- Python's `Decimal`: a sign, a coefficient and an exponent, here `-places` or `exponent`, or one of
-- the special values.
pub data Decimal : Type 0 where
  fraction : (negative : Bool) (coefficient places : ℕ) → Decimal
  whole : (negative : Bool) (coefficient exponent : ℕ) → Decimal
  infinite : (negative : Bool) → Decimal
  not_a_number : Decimal

unfoldable pub is_finite : Decimal → Bool
is_finite (fraction _ _ _) = true
is_finite (whole _ _ _) = true
is_finite (infinite _) = false
is_finite not_a_number = false

-- `amount <= 0`, of a finite amount
unfoldable pub is_at_most_zero : Decimal → Bool
is_at_most_zero (fraction negative n _) = negative || n == 0
is_at_most_zero (whole negative n _) = negative || n == 0
is_at_most_zero (infinite negative) = negative
is_at_most_zero not_a_number = false

-- `MAX_MONEY` in hundredths: 9999999999.99
abbrev pub max_money : ℕ
max_money = 999_999_999_999

-- `amount > MAX_MONEY`, of an amount above zero
unfoldable pub is_above_maximum : Decimal → Bool
is_above_maximum (fraction _ n places) = ltb (max_money * 10 ^ places) (n * 100)
is_above_maximum (whole _ n exponent) = ltb max_money (n * 10 ^ exponent * 100)
is_above_maximum (infinite negative) = not negative
is_above_maximum not_a_number = false

-- `exponent < -2`
unfoldable pub has_small_places : Decimal → Bool
has_small_places (fraction _ _ places) = ltb 2 places
has_small_places (whole _ _ _) = false
has_small_places (infinite _) = true
has_small_places not_a_number = true

-- `amount.quantize(Decimal("0.01"))` of an amount that passed the tests, in hundredths
unfoldable pub quantize : Decimal → ℕ
quantize (fraction _ n places) = n * 10 ^ (2 - places)
quantize (whole _ n exponent) = n * 10 ^ exponent * 100
quantize (infinite _) = 0
quantize not_a_number = 0

-- `str.upper` of one code point, exact where the result has letters A to Z only; any other code
-- point is kept, and no text with one is a currency in either case.
unfoldable pub upper_letter : ℕ → Text
upper_letter c =
    if leb b'a' c && leb c b'z'
    then (c - 32) ∷ []
    else if c == 0x131
    then b'I' ∷ []
    else if c == 0x17f
    then b'S' ∷ []
    else if c == 0xdf
    then b'S' ∷ b'S' ∷ []
    else if c == 0xfb00
    then b'F' ∷ b'F' ∷ []
    else if c == 0xfb01
    then b'F' ∷ b'I' ∷ []
    else if c == 0xfb02
    then b'F' ∷ b'L' ∷ []
    else if c == 0xfb03
    then b'F' ∷ b'F' ∷ b'I' ∷ []
    else if c == 0xfb04
    then b'F' ∷ b'F' ∷ b'L' ∷ []
    else if c == 0xfb05 || c == 0xfb06
    then b'S' ∷ b'T' ∷ []
    else c ∷ []

unfoldable pub upper : Text → Text
unfolding upper_letter
upper [] = []
upper (c ∷ s) = upper_letter c ++ upper s

abbrev pub is_capital : ℕ → Bool
is_capital c = leb b'A' c && leb c b'Z'

-- `^[A-Z]{3}$`
unfoldable pub is_currency : Text → Bool
is_currency (a ∷ b ∷ c ∷ []) = is_capital a && is_capital b && is_capital c
is_currency _ = false

unfoldable pub validate_money : Decimal → Text → Result (ℕ × Text)
unfolding is_finite is_at_most_zero is_above_maximum has_small_places quantize upper is_currency
validate_money amount currency =
    let normalized_currency = upper (strip currency) in
    raise_if (not (is_finite amount) || is_at_most_zero amount || is_above_maximum amount)
      value_error
    >> raise_if (has_small_places amount) value_error
    >> raise_if (not (is_currency normalized_currency)) value_error
    >> ok (quantize amount, normalized_currency)
