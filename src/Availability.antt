-- ===== src/Availability.antt =====
-- app/domain/availability.py: the calendar rules of a window and its distance from other windows.
-- `ZoneInfo` of the configured name is the zone that the rules carry.
use lanrouge_nails_bot.Base.{
  ℕ, ◌+◌, ◌-◌, ◌/◌, ◌%◌, Bool, not, ◌&&◌, ◌||◌, List, [], ◌∷◌, length, ltb, leb, ◌==◌,
  if◌then◌else◌,
}
use lanrouge_nails_bot.Errors.{
  Result, ok, err, value_error, window_validation, ◌>>=◌, ◌>>◌, raise_if,
}
use lanrouge_nails_bot.Time.{Datetime, naive, aware, minutes, days, require_aware}
use lanrouge_nails_bot.Projection.Zones.{Zone}
pub mod Calendar
pub mod Spacing

pub record WindowRules : Type 0 where
  pub timezone : Zone
  pub booking_horizon_days : ℕ
  pub max_windows_per_day : ℕ
  pub default_duration_minutes : ℕ
  pub minimum_gap_minutes : ℕ
  pub allow_saturday : Bool
  pub allow_sunday : Bool

pub record ExistingInterval : Type 0 where
  pub start_at : ℕ
  pub end_at : ℕ

-- `datetime.combine(...)` in a zone, converted to UTC. A wall clock is in microseconds.
unfoldable pub local_window_to_utc : Zone → ℕ → ℕ → ℕ → ℕ × ℕ
local_window_to_utc zone local_date local_start_time duration_minutes =
    let local_start = days local_date + local_start_time in
    (zone.to_utc local_start 0, zone.to_utc (local_start + minutes duration_minutes) 0)

unfoldable pub utc_day_bounds : Zone → ℕ → ℕ × ℕ
utc_day_bounds zone local_date =
    (zone.to_utc (days local_date) 0, zone.to_utc (days (local_date + 1)) 0)

-- `value.astimezone(zone).date()`
abbrev pub local_date_of : Zone → ℕ → ℕ
local_date_of zone instant = (zone.to_local instant).0 / days 1

unfoldable pub validate_calendar_rules :
    ℕ → Datetime → Datetime → Datetime → WindowRules → Result Unit
validate_calendar_rules local_date start_at end_at now rules = do
  current ← require_aware now
  start ← require_aware start_at
  end ← require_aware end_at
  raise_if (leb end start) window_validation
  raise_if (leb start current) window_validation
  let today = local_date_of rules.timezone current
  raise_if (not (local_date_of rules.timezone end == local_date)) window_validation
  raise_if (ltb local_date today || ltb (today + rules.booking_horizon_days) local_date)
      window_validation
  raise_if (local_date % 7 == 5 && not rules.allow_saturday) window_validation
  raise_if (local_date % 7 == 6 && not rules.allow_sunday) window_validation

-- The body of the loop over the existing windows.
unfoldable pub validate_spacing : ℕ → ℕ → ℕ → ExistingInterval → Result Unit
validate_spacing start_at end_at minimum_gap interval = do
  raise_if (ltb start_at interval.end_at && ltb interval.start_at end_at) window_validation
  raise_if (leb end_at interval.start_at && ltb (interval.start_at - end_at) minimum_gap)
      window_validation
  raise_if (leb interval.end_at start_at && ltb (start_at - interval.end_at) minimum_gap)
      window_validation

unfoldable pub validate_spacings : ℕ → ℕ → ℕ → List ExistingInterval → Result Unit
validate_spacings start_at end_at minimum_gap [] = ok tt
validate_spacings start_at end_at minimum_gap (interval ∷ existing) =
    validate_spacing start_at end_at minimum_gap interval
    >> validate_spacings start_at end_at minimum_gap existing

unfoldable pub validate_capacity_and_spacing : ℕ → ℕ → List ExistingInterval → ℕ → ℕ → Result Unit
unfolding validate_spacings
validate_capacity_and_spacing start_at end_at existing max_windows_per_day minimum_gap_minutes = do
  raise_if (leb max_windows_per_day (length existing)) window_validation
  validate_spacings start_at end_at (minutes minimum_gap_minutes) existing
