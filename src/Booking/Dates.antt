-- ===== src/Booking/Dates.antt =====
-- The check at booking time against the check at the creation of a window.
use lanrouge_nails_bot.Base.{ℕ, ◌≡◌, arith}
use lanrouge_nails_bot.Errors.{ok}
use lanrouge_nails_bot.Time.{aware}
use lanrouge_nails_bot.Availability.{WindowRules, local_date_of, validate_calendar_rules}
use lanrouge_nails_bot.Booking.{validate_bookable_date}

-- A window that starts on the date for which the calendar rules accept it can be booked under the
-- same rules at the same time, and on that date.
created-bookable :
    (date start end now : ℕ) (rules : WindowRules)
    → local_date_of rules.timezone start ≡ date
    → validate_calendar_rules date (aware start) (aware end) (aware now) rules ≡ ok tt
    → validate_bookable_date
        (aware start)
        (aware now)
        rules.timezone
        rules.booking_horizon_days
        rules.allow_saturday
        rules.allow_sunday
      ≡ ok date
unfolding validate_calendar_rules validate_bookable_date
created-bookable date start end now rules day h = ground arith
