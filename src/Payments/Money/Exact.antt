-- ===== src/Payments/Money/Exact.antt =====
-- app/domain/payments.py, `validate_money`: what is accepted, and that nothing is rounded.
use lanrouge_nails_bot.Base.{[], ◌∷◌, ℕ, ◌*◌, ◌^◌, ◌≤◌, ◌≡◌, Bool, true, false, arith, zero, suc}
use lanrouge_nails_bot.Errors.{ok}
use lanrouge_nails_bot.Text.{Text, strip}
use lanrouge_nails_bot.Payments.Money.{
  Decimal, fraction, whole, infinite, not_a_number, upper, is_currency, validate_money,
}

-- `cents` hundredths are exactly the amount.
abbrev pub IsExactly : Decimal → ℕ → Type 0
IsExactly (fraction negative n places) cents = (negative ≡ false) × (cents * 10 ^ places ≡ n * 100)
IsExactly (whole negative n exponent) cents = (negative ≡ false) × (cents ≡ n * 10 ^ exponent * 100)
IsExactly (infinite negative) cents = ⊥
IsExactly not_a_number cents = ⊥

accepted_fraction :
    (negative : Bool) (n places : ℕ) (currency : Text) (cents : ℕ) (code : Text)
    → validate_money (fraction negative n places) currency ≡ ok (cents, code)
    → IsExactly (fraction negative n places) cents × (1 ≤ cents) × (cents ≤ 999_999_999_999)
unfolding validate_money
accepted_fraction negative n zero currency cents code h = ground arith
accepted_fraction negative n (suc zero) currency cents code h = ground arith
accepted_fraction negative n (suc (suc zero)) currency cents code h = ground arith
accepted_fraction negative n (suc (suc (suc p))) currency cents code h = ground arith

power_of_ten : (e : ℕ) → 1 ≤ 10 ^ e
power_of_ten zero = omega arith
power_of_ten (suc e) = let h = power_of_ten e in omega arith

product_positive : (n e : ℕ) → 1 ≤ n → 1 ≤ n * 10 ^ e
product_positive n zero h = omega arith
product_positive n (suc e) h = let shorter = product_positive n e h in grind arith

accepted_whole :
    (negative : Bool) (n exponent : ℕ) (currency : Text) (cents : ℕ) (code : Text)
    → validate_money (whole negative n exponent) currency ≡ ok (cents, code)
    → IsExactly (whole negative n exponent) cents × (1 ≤ cents) × (cents ≤ 999_999_999_999)
unfolding validate_money
accepted_whole negative n exponent currency cents code h =
    ground (arith, product_positive n exponent)

abbrev IsCapital : ℕ → Type 0
IsCapital c = (65 ≤ c) × (c ≤ 90)

-- Three letters from `A` to `Z`.
abbrev pub IsThreeCapitals : Text → Type 0
IsThreeCapitals (a ∷ b ∷ c ∷ []) = IsCapital a × IsCapital b × IsCapital c
IsThreeCapitals _ = ⊥

is_currency-IsThreeCapitals : (code : Text) → is_currency code ≡ true → IsThreeCapitals code
unfolding is_currency
is_currency-IsThreeCapitals [] h = ground arith
is_currency-IsThreeCapitals (a ∷ []) h = ground arith
is_currency-IsThreeCapitals (a ∷ b ∷ []) h = ground arith
is_currency-IsThreeCapitals (a ∷ b ∷ c ∷ []) h =
    ((ground arith, ground arith), (ground arith, ground arith), (ground arith, ground arith))
is_currency-IsThreeCapitals (a ∷ b ∷ c ∷ d ∷ s) h = ground arith

accepted_currency :
    (amount : Decimal) (currency : Text) (cents : ℕ) (code : Text)
    → validate_money amount currency ≡ ok (cents, code)
    → (code ≡ upper (strip currency)) × IsThreeCapitals code
unfolding validate_money
accepted_currency amount currency cents code h =
    (ground arith, is_currency-IsThreeCapitals code (ground arith))

-- Money that is accepted is exactly the amount given, above zero and at most 9999999999.99, and its
-- currency is the given text, stripped and in upper case: three letters from `A` to `Z`.
pub validate_money-IsExactly :
    (amount : Decimal) (currency : Text) (cents : ℕ) (code : Text)
    → validate_money amount currency ≡ ok (cents, code)
    → IsExactly amount cents
      × (1 ≤ cents)
      × (cents ≤ 999_999_999_999)
      × (code ≡ upper (strip currency))
      × IsThreeCapitals code
unfolding validate_money
validate_money-IsExactly (fraction negative n places) currency cents code h =
    let (exact, positive, bounded) = accepted_fraction negative n places currency cents code h in
    (
      exact,
      positive,
      bounded,
      (accepted_currency (fraction negative n places) currency cents code h).0,
      (accepted_currency (fraction negative n places) currency cents code h).1,
    )
validate_money-IsExactly (whole negative n exponent) currency cents code h =
    let (exact, positive, bounded) = accepted_whole negative n exponent currency cents code h in
    (
      exact,
      positive,
      bounded,
      (accepted_currency (whole negative n exponent) currency cents code h).0,
      (accepted_currency (whole negative n exponent) currency cents code h).1,
    )
validate_money-IsExactly (infinite negative) currency cents code h = ground arith
validate_money-IsExactly not_a_number currency cents code h = ground arith
