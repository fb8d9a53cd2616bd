-- ===== src/Availability/Calendar.antt =====
-- When the calendar rules accept a window.
use lanrouge_nails_bot.Base.{ℕ, ◌+◌, ◌%◌, ◌≤◌, ◌<◌, ◌≡◌, ◌≢◌, ◌↔◌, ◌⊎◌, true, arith}
use lanrouge_nails_bot.Errors.{ok}
use lanrouge_nails_bot.Time.{aware}
use lanrouge_nails_bot.Availability.{WindowRules, local_date_of, validate_calendar_rules}

-- A window of the date, in the future, within the horizon, on a day of the week that is allowed.
pub record IsAllowed (date start end now : ℕ) (rules : WindowRules) : Type 0 where
  pub positive : start < end
  pub future : now < start
  pub same_day : local_date_of rules.timezone end ≡ date
  pub not_past : local_date_of rules.timezone now ≤ date
  pub in_horizon : date ≤ local_date_of rules.timezone now + rules.booking_horizon_days
  pub saturday : (date % 7 ≢ 5) ⊎ (rules.allow_saturday ≡ true)
  pub sunday : (date % 7 ≢ 6) ⊎ (rules.allow_sunday ≡ true)

-- For aware times the calendar rules accept exactly the windows that end on the given date after
-- they start, start in the future, lie between today and the horizon and on no forbidden weekend
-- day. The rules compare the date with the end of the window, not with its start.
pub validate_calendar_rules_iff :
    (date start end now : ℕ) (rules : WindowRules)
    → (validate_calendar_rules date (aware start) (aware end) (aware now) rules ≡ ok tt)
      ↔ IsAllowed date start end now rules
unfolding validate_calendar_rules
validate_calendar_rules_iff date start end now rules = (λ h. ground arith, λ h. ground arith)
