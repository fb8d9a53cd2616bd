-- ===== src/Examples/Schedules.antt =====
-- A master who works on Mondays from 9:00 to 11:00 with a break from 10:00 to 10:30, in a zone three
-- hours ahead of UTC.
use lanrouge_nails_bot.Base.{
  ℕ, ◌+◌, ◌-◌, ◌≡◌, ◌↔◌, refl, true, false, ◌&&◌, not, none, some, List, [], ◌∷◌, All, AllPairs,
  arith,
}
use mathlib.Core.List.{Memᴰ}
use lanrouge_nails_bot.Enums.{BusinessType, ScheduleIntervalKind}
use lanrouge_nails_bot.Errors.{ok}
use lanrouge_nails_bot.Time.{aware, minutes, hours, days}
use lanrouge_nails_bot.Projection.Ranges.{
  LocalMinuteRange, cut, cut_all, subtract_ranges, ensure_ranges_do_not_overlap,
}
use lanrouge_nails_bot.Projection.Ranges.Coverage.{IsValid, covered, subtract_ranges-covers}
use lanrouge_nails_bot.Projection.Ranges.Disjoint.{Disjoint, ensure_ranges_do_not_overlap_iff}
use lanrouge_nails_bot.Projection.Schedules.{
  rule_intervals, exception_intervals, WeeklyScheduleRule, StaffScheduleDefinition,
  effective_work_ranges, ensure_weekly_rules_do_not_overlap,
}
use lanrouge_nails_bot.Projection.Schedules.Checks.{
  RulesApart, ensure_weekly_rules_do_not_overlap_iff,
}
use lanrouge_nails_bot.Projection.Groups.{pair_key}
use lanrouge_nails_bot.Enums.{schedule_exception_kind_enum}
use lanrouge_nails_bot.Projection.Schedules.{DateScheduleException}
use lanrouge_nails_bot.Enums.{ScheduleExceptionKind}
use lanrouge_nails_bot.Projection.Schedules.Opening.{
  IsWellFormed, is_working, effective_work_ranges-covers,
}
use lanrouge_nails_bot.Projection.Zones.{Zone, resolve_boundary, valid_utc_instants}
use lanrouge_nails_bot.Projection.Zones.Fixed.{ahead_of_utc}
use lanrouge_nails_bot.Projection.Slots.{
  ProjectedSlot, slot_at, range_slots, project_staff_day, is_offered,
}
use lanrouge_nails_bot.Projection.Slots.Offers.{round, range_slots-complete}
use lanrouge_nails_bot.Projection.Slots.Working.{
  IsBookable, Touches, project_staff_day-IsBookable, project_staff_day-is_working,
}
use lanrouge_nails_bot.Projection.Day.{
  DayAvailabilityProjection, project_day, project_members, project_all, has_duplicates,
}
use lanrouge_nails_bot.Projection.Day.Contract.{IsDayOf, project_day-IsDayOf}

abbrev morning : LocalMinuteRange
morning = record { start = 540; end = 660 }

abbrev pause : LocalMinuteRange
pause = record { start = 600; end = 630 }

abbrev weekly_rules : List WeeklyScheduleRule
weekly_rules =
    record { weekday = 0; kind = ScheduleIntervalKind.work; interval = morning }
    ∷ record { weekday = 0; kind = ScheduleIntervalKind.break; interval = pause }
    ∷ []

abbrev master : StaffScheduleDefinition
master = record {
  staff_member_id = 7;
  display_name = b'A' ∷ [];
  duration_minutes = 30;
  weekly_rules = weekly_rules;
  date_exceptions = [];
  busy_periods = [];
  sort_order = 1;
  is_active = true;
  is_bookable = true;
  schedule_paused_until = none;
}

-- A Monday.
abbrev monday : ℕ
monday = 700

abbrev zone : Zone
zone = ahead_of_utc (hours 3)

abbrev instant : ℕ → ℕ
instant minute = days monday + minutes minute - hours 3

abbrev now : ℕ
now = days 699

abbrev slots : List ProjectedSlot
slots =
    slot_at zone master (instant 540)
    ∷ slot_at zone master (instant 570)
    ∷ slot_at zone master (instant 630)
    ∷ []

test_project_staff_day : project_staff_day zone master now 30 monday ≡ ok slots
unfolding project_staff_day effective_work_ranges resolve_boundary subtract_ranges is_offered
    rule_intervals exception_intervals cut_all cut valid_utc_instants
test_project_staff_day = refl

abbrev day : DayAvailabilityProjection
day = record {
  local_date = monday;
  timezone = b'Z' ∷ [];
  eligible_staff_ids = 7 ∷ [];
  show_master_selection = false;
  slots = slots;
}

test_project_day :
    project_day
      (λ _. some zone)
      (λ s. s)
      BusinessType.solo
      (b'Z' ∷ [])
      monday
      (aware now)
      30
      (master ∷ [])
      none
      30
    ≡ ok day
unfolding project_day project_members project_all has_duplicates project_staff_day
    effective_work_ranges resolve_boundary subtract_ranges is_offered rule_intervals
    exception_intervals cut_all cut valid_utc_instants
test_project_day = refl

rules_are_valid : IsWellFormed master
rules_are_valid = ground arith

project_staff_day-is_working_example :
    (ss : List ProjectedSlot) × (project_staff_day zone master now 30 monday ≡ ok ss)
    × All (λ s. (m : ℕ) → Touches (hours 3) monday s m → is_working master monday m ≡ true) ss
project_staff_day-is_working_example =
    project_staff_day-is_working master now 30 (hours 3) monday rules_are_valid (omega arith)

project_day-IsDayOf_example :
    (monday ≡ monday) × IsDayOf (master ∷ []) none BusinessType.solo 30 now (now + hours 3) day
project_day-IsDayOf_example =
    project_day-IsDayOf (λ _. some zone) (λ s. s) BusinessType.solo (b'Z' ∷ []) monday now 30
      (master ∷ []) none 30 zone day refl test_project_day

project_staff_day-IsBookable_example : All (IsBookable master now) slots
project_staff_day-IsBookable_example =
    project_staff_day-IsBookable zone master now 30 monday slots test_project_staff_day

is_offered_at_ten : is_offered master now (round zone master now 30 (instant 540) 1) ≡ true
unfolding is_offered
is_offered_at_ten = refl

range_slots-complete_example :
    Memᴰ
      (slot_at zone master (round zone master now 30 (instant 540) 1))
      (range_slots zone master now 30 (instant 540) (instant 600))
range_slots-complete_example =
    range_slots-complete zone master now 30 (instant 540) (instant 600) 1 (omega arith)
      (omega arith) is_offered_at_ten

subtract_ranges-covers_example :
    (rs : List LocalMinuteRange) × (subtract_ranges (morning ∷ []) (pause ∷ []) ≡ ok rs)
    × All IsValid rs
    × ((m : ℕ) → covered m rs ≡ covered m (morning ∷ []) && not (covered m (pause ∷ [])))
subtract_ranges-covers_example =
    subtract_ranges-covers (morning ∷ []) (pause ∷ []) ((omega arith, omega arith), tt)

effective_work_ranges-covers_example :
    (rs : List LocalMinuteRange) × (effective_work_ranges master monday ≡ ok rs)
    × All IsValid rs
    × ((m : ℕ) → covered m rs ≡ is_working master monday m)
effective_work_ranges-covers_example = effective_work_ranges-covers master monday rules_are_valid

abbrev open_ranges : List LocalMinuteRange
open_ranges = record { start = 540; end = 600 } ∷ record { start = 630; end = 660 } ∷ []

test_subtract_ranges : subtract_ranges (morning ∷ []) (pause ∷ []) ≡ ok open_ranges
unfolding subtract_ranges cut_all cut
test_subtract_ranges = refl

ensure_ranges_do_not_overlap_iff_example :
    (ensure_ranges_do_not_overlap (morning ∷ pause ∷ []) ≡ ok tt)
    ↔ AllPairs Disjoint (morning ∷ pause ∷ [])
ensure_ranges_do_not_overlap_iff_example =
    ensure_ranges_do_not_overlap_iff (morning ∷ pause ∷ [])
      ((omega arith, omega arith), ((omega arith, omega arith), tt))

ensure_weekly_rules_do_not_overlap_iff_example :
    (ensure_weekly_rules_do_not_overlap weekly_rules ≡ ok tt) ↔ AllPairs RulesApart weekly_rules
ensure_weekly_rules_do_not_overlap_iff_example =
    ensure_weekly_rules_do_not_overlap_iff weekly_rules
      ((omega arith, omega arith), ((omega arith, omega arith), tt))

abbrev exceptions : List DateScheduleException
exceptions =
    record { local_date = 700; kind = ScheduleExceptionKind.day_off; interval = none }
    ∷ record { local_date = 707; kind = ScheduleExceptionKind.break; interval = some pause }
    ∷ []
