-- ===== src/Booking/Phones.antt =====
-- Normalized phone numbers.
use lanrouge_nails_bot.Base.{
  ℕ, ◌≤◌, ◌≡◌, refl, Bool, true, false, not, [], ◌∷◌, any, select, select_all, length, ==→eq, ap,
  ◌==◌, arith, Bool-cases, inl, inr,
}
use lanrouge_nails_bot.Errors.{ok}
use lanrouge_nails_bot.Text.{Text, is_space, strip}
use lanrouge_nails_bot.Text.Stripping.{strip_id}
use lanrouge_nails_bot.Booking.{
  is_separator, isdecimal, with_prefix, require_digits, normalize_phone,
}

module _ (is_decimal : ℕ → Bool) where
  -- A plus sign and ten to fifteen decimal digits.
  abbrev pub IsPhone : Text → Type 0
  IsPhone phone =
      (digits : Text) × (phone ≡ b'+' ∷ digits)
      × (any (λ d. not (is_decimal d)) digits ≡ false)
      × (10 ≤ length digits)
      × (length digits ≤ 15)

  solid : (s : Text) → isdecimal is_decimal s ≡ true → any (λ d. not (is_decimal d)) s ≡ false
  solid [] h = refl
  solid (c ∷ s) h = ground arith

  require_digits-IsPhone :
      (s phone : Text) → require_digits is_decimal s ≡ ok phone → (phone ≡ s) × IsPhone s
  unfolding require_digits
  require_digits-IsPhone [] phone h = ground arith
  require_digits-IsPhone (c ∷ s) phone h = elim (Bool-cases (c == b'+')) [
    | inl plus ↦ (
      ground arith,
      (s, ap (λ d. d ∷ s) (==→eq c b'+' plus), solid s (ground arith), ground arith, ground arith),
    )
    | inr other ↦ ground arith
  ]

  -- A number that is accepted is a plus sign with ten to fifteen decimal digits.
  normalize_phone-IsPhone :
      (value phone : Text) → normalize_phone is_decimal value ≡ ok phone → IsPhone phone
  unfolding normalize_phone
  normalize_phone-IsPhone value phone h =
      let (same, is_phone) =
        require_digits-IsPhone
          (with_prefix is_decimal (select (λ c. not (is_separator c)) (strip value))) phone h in
      rw same is_phone

  no_separators :
      ((c : ℕ) → is_decimal c ≡ true → is_separator c ≡ false)
      → (digits : Text) → any (λ d. not (is_decimal d)) digits ≡ false
      → (any is_space digits ≡ false) × (any (λ d. not (not (is_separator d))) digits ≡ false)
  unfolding is_separator
  no_separators solid_digits [] h = (refl, refl)
  no_separators solid_digits (d ∷ digits) h =
      ground (arith, solid_digits d, no_separators solid_digits digits)

  with_prefix_fixed :
      (digits : Text) → 10 ≤ length digits → with_prefix is_decimal (b'+' ∷ digits) ≡ b'+' ∷ digits
  unfolding with_prefix
  with_prefix_fixed digits long = ground arith

  require_digits_fixed :
      (digits : Text)
      → any (λ d. not (is_decimal d)) digits ≡ false
      → 10 ≤ length digits
      → length digits ≤ 15
      → require_digits is_decimal (b'+' ∷ digits) ≡ ok (b'+' ∷ digits)
  unfolding require_digits
  require_digits_fixed [] decimal long short = absurd (omega arith)
  require_digits_fixed (d ∷ digits) decimal long short = ground arith

  phone_fixed :
      ((c : ℕ) → is_decimal c ≡ true → is_separator c ≡ false)
      → (digits : Text) → any (λ d. not (is_decimal d)) digits ≡ false
      → 10 ≤ length digits
      → length digits ≤ 15
      → normalize_phone is_decimal (b'+' ∷ digits) ≡ ok (b'+' ∷ digits)
  unfolding normalize_phone is_space is_separator
  phone_fixed solid_digits digits decimal long short =
      let (no_space, no_separator) = no_separators solid_digits digits decimal in
      rw (strip_id (b'+' ∷ digits) no_space) (
        rw (select_all (λ c. not (is_separator c)) (b'+' ∷ digits) no_separator)
          (rw (with_prefix_fixed digits long) (require_digits_fixed digits decimal long short)))

  -- Where no decimal digit is white space, a bracket or a dash, a number that has been accepted is
  -- accepted again and left as it is: normalizing twice is normalizing once.
  pub normalize_phone_again :
      ((c : ℕ) → is_decimal c ≡ true → is_separator c ≡ false)
      → (value phone : Text) → normalize_phone is_decimal value ≡ ok phone
      → normalize_phone is_decimal phone ≡ ok phone
  normalize_phone_again solid_digits value phone h =
      let (digits, built, decimal, long, short) = normalize_phone-IsPhone value phone h in
      rw built (phone_fixed solid_digits digits decimal long short)
