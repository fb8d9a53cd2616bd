-- ===== src/Booking.antt =====
-- app/domain/booking.py: a service in a window, the dates that can be booked, and phone numbers.
-- Unicode's decimal digits (`str.isdecimal`) are a parameter.
use lanrouge_nails_bot.Base.{
  ℕ, ◌+◌, ◌-◌, ◌*◌, ◌/◌, ◌%◌, Bool, true, false, not, ◌&&◌, ◌||◌, List, [], ◌∷◌, ◌++◌, any, select,
  length, ltb, leb, ◌==◌, if◌then◌else◌,
}
use lanrouge_nails_bot.Errors.{
  Result, ok, err, value_error, booking_unavailable, ◌>>=◌, ◌>>◌, raise_if,
}
use lanrouge_nails_bot.Text.{Text, is_space, strip}
use lanrouge_nails_bot.Time.{Datetime, naive, aware, days, require_aware}
use lanrouge_nails_bot.Availability.{local_date_of}
use lanrouge_nails_bot.Projection.Zones.{Zone}
pub mod Phones
pub mod Dates

-- `[\s()\-]`
unfoldable pub is_separator : ℕ → Bool
is_separator c = is_space c || c == b'(' || c == b')' || c == b'-'

abbrev pub starts_with : ℕ → Text → Bool
starts_with c [] = false
starts_with c (d ∷ s) = d == c

-- `s[1:]`
abbrev pub drop_one : Text → Text
drop_one [] = []
drop_one (_ ∷ s) = s

module _ (is_decimal : ℕ → Bool) where
  -- `str.isdecimal`: not empty, and decimal digits only
  abbrev pub isdecimal : Text → Bool
  isdecimal [] = false
  isdecimal (c ∷ s) = not (any (λ d. not (is_decimal d)) (c ∷ s))

  -- The first part of `normalize_phone`: the international prefix.
  unfoldable pub with_prefix : Text → Text
  with_prefix s =
      if starts_with b'8' s && length s == 11
      then b'+' ∷ b'7' ∷ drop_one s
      else if isdecimal s && length s == 10
      then b'+' ∷ b'7' ∷ s
      else if starts_with b'+' s
      then s
      else if isdecimal s
      then b'+' ∷ s
      else s

  -- The last part of `normalize_phone`: the check of the digits behind the plus sign.
  unfoldable pub require_digits : Text → Result Text
  require_digits normalized = do
    let digits = if starts_with b'+' normalized then drop_one normalized else []
    raise_if (not (isdecimal digits) || not (leb 10 (length digits) && leb (length digits) 15))
        value_error
    ok normalized

  unfoldable pub normalize_phone : Text → Result Text
  normalize_phone value =
      require_digits (with_prefix (select (λ c. not (is_separator c)) (strip value)))

-- `duration_max_minutes * 60 > (end_at - start_at).total_seconds()`, in microseconds, with the
-- start moved to the other side of the comparison.
unfoldable pub validate_service_fits_window : ℕ → ℕ → ℕ → Result Unit
validate_service_fits_window duration_max_minutes start_at end_at =
    raise_if (ltb end_at (start_at + duration_max_minutes * 60 * 1_000_000)) booking_unavailable

unfoldable pub validate_bookable_date : Datetime → Datetime → Zone → ℕ → Bool → Bool → Result ℕ
validate_bookable_date start_at now zone booking_horizon_days allow_saturday allow_sunday = do
  start ← require_aware start_at
  current ← require_aware now
  let local_date = local_date_of zone start
  let today = local_date_of zone current
  raise_if
      (leb start current
        || not (leb today local_date && leb local_date (today + booking_horizon_days)))
      booking_unavailable
  raise_if (local_date % 7 == 5 && not allow_saturday) booking_unavailable
  raise_if (local_date % 7 == 6 && not allow_sunday) booking_unavailable
  ok local_date
