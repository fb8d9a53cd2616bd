-- ===== src/Projection/Schedules/Opening.antt =====
-- The working minutes of a date, one minute at a time, against `effective_work_ranges`.
use mathlib.Core.Path.{ap₂}
use lanrouge_nails_bot.Base.{
  ℕ, ◌≡◌, refl, true, false, ◌∷◌, Bool, not, ◌&&◌, ◌||◌, inl, inr, ◌∙◌, List, [], ◌++◌, any,
  any-append, All, All-select, ◌==◌, arith, if◌then◌else◌, Bool-cases,
}
use lanrouge_nails_bot.Enums.{
  ScheduleIntervalKind, schedule_interval_kind_enum, ScheduleExceptionKind,
  schedule_exception_kind_enum, contains,
}
use lanrouge_nails_bot.Errors.{ok}
use lanrouge_nails_bot.Projection.Ranges.{LocalMinuteRange}
use lanrouge_nails_bot.Projection.Ranges.Coverage.{IsValid, covered, subtract_ranges-covers}
use lanrouge_nails_bot.Projection.Schedules.{
  DateScheduleException, StaffScheduleDefinition, all_day_exception_kinds, exception_intervals,
  rule_intervals, weekday_of, or_else, effective_work_ranges,
}
use lanrouge_nails_bot.Projection.Schedules.Intervals.{
  HasValidInterval, exception_at, timed_exception, rule_at, on_date, any-select, covered-exceptions,
  is_nil-exceptions, covered-rules, covered-or_else, exceptions-IsValid, rules-IsValid,
  or_else-IsValid,
}

abbrev pub IsWellFormed : StaffScheduleDefinition → Type 0
IsWellFormed staff =
    All (λ rule. IsValid rule.interval) staff.weekly_rules
    × All HasValidInterval staff.date_exceptions

-- A day off, leave and sickness take the whole day.
abbrev pub closes_day : ScheduleExceptionKind → Bool
closes_day ScheduleExceptionKind.day_off = true
closes_day ScheduleExceptionKind.leave = true
closes_day ScheduleExceptionKind.sick = true
closes_day ScheduleExceptionKind.working_window = false
closes_day ScheduleExceptionKind.break = false

abbrev pub all_day_exception : ℕ → DateScheduleException → Bool
all_day_exception date e = e.local_date == date && closes_day e.kind

-- The member of the staff works in the minute: the date has no all-day exception, a working window
-- of the date holds the minute, or the weekly rules do where the date has no working window, and
-- no break does.
abbrev pub is_working : StaffScheduleDefinition → ℕ → ℕ → Bool
is_working staff date m =
    not (any (all_day_exception date) exceptions)
    && ((if any (timed_exception date ScheduleExceptionKind.working_window) exceptions
          then any (exception_at date ScheduleExceptionKind.working_window m) exceptions
          else any (rule_at date ScheduleIntervalKind.work m) rules)
        && not (
            any (rule_at date ScheduleIntervalKind.break m) rules
            || any (exception_at date ScheduleExceptionKind.break m) exceptions))
  where
    open staff use {date_exceptions as exceptions, weekly_rules as rules}

contains-closes_day :
    (kind : ScheduleExceptionKind) → contains kind all_day_exception_kinds ≡ closes_day kind
contains-closes_day ScheduleExceptionKind.day_off = refl
contains-closes_day ScheduleExceptionKind.leave = refl
contains-closes_day ScheduleExceptionKind.sick = refl
contains-closes_day ScheduleExceptionKind.working_window = refl
contains-closes_day ScheduleExceptionKind.break = refl

all_day-on_date :
    (date : ℕ) (es : List DateScheduleException)
    → any (λ e. e.local_date == date && contains e.kind all_day_exception_kinds) es
      ≡ any (all_day_exception date) es
all_day-on_date date [] = refl
all_day-on_date date (e ∷ es) =
    ap₂ (λ a b. (e.local_date == date && a) || b) (contains-closes_day e.kind)
      (all_day-on_date date es)

-- The two lists that a day without an all-day exception subtracts from one another.
abbrev work_on : StaffScheduleDefinition → ℕ → List LocalMinuteRange
work_on staff date =
    or_else
      (exception_intervals ScheduleExceptionKind.working_window
        (on_date date staff.date_exceptions))
      (rule_intervals (weekday_of date) ScheduleIntervalKind.work staff.weekly_rules)

abbrev breaks_on : StaffScheduleDefinition → ℕ → List LocalMinuteRange
breaks_on staff date =
    rule_intervals (weekday_of date) ScheduleIntervalKind.break staff.weekly_rules
    ++ exception_intervals ScheduleExceptionKind.break (on_date date staff.date_exceptions)

work_on-IsValid :
    (staff : StaffScheduleDefinition) (date : ℕ)
    → IsWellFormed staff
    → All IsValid (work_on staff date)
unfolding on_date
work_on-IsValid staff date (rules_valid, exceptions_valid) =
    or_else-IsValid _ _
      (exceptions-IsValid ScheduleExceptionKind.working_window (on_date date staff.date_exceptions)
        (All-select HasValidInterval (λ e. e.local_date == date) staff.date_exceptions
          exceptions_valid))
      (rules-IsValid (weekday_of date) ScheduleIntervalKind.work staff.weekly_rules rules_valid)

covered-work_on :
    (staff : StaffScheduleDefinition) (date m : ℕ)
    → covered m (work_on staff date) ≡ (
        if any (timed_exception date ScheduleExceptionKind.working_window) staff.date_exceptions
        then any (exception_at date ScheduleExceptionKind.working_window m) staff.date_exceptions
        else any (rule_at date ScheduleIntervalKind.work m) staff.weekly_rules)
covered-work_on staff date m = rw covered-or_else (
    rw
      (
        is_nil-exceptions date ScheduleExceptionKind.working_window staff.date_exceptions,
        covered-exceptions date m ScheduleExceptionKind.working_window staff.date_exceptions,
        covered-rules date m ScheduleIntervalKind.work staff.weekly_rules,
      )
      (ground arith))

covered-breaks_on :
    (staff : StaffScheduleDefinition) (date m : ℕ)
    → covered m (breaks_on staff date)
      ≡ any (rule_at date ScheduleIntervalKind.break m) staff.weekly_rules
        || any (exception_at date ScheduleExceptionKind.break m) staff.date_exceptions
covered-breaks_on staff date m = rw any-append (
    rw (
      covered-rules date m ScheduleIntervalKind.break staff.weekly_rules,
      covered-exceptions date m ScheduleExceptionKind.break staff.date_exceptions,
    ))

-- For a schedule of valid ranges the working ranges of a date are always returned, are valid, and
-- hold exactly the minutes in which the member of the staff works.
pub effective_work_ranges-covers :
    (staff : StaffScheduleDefinition) (date : ℕ)
    → IsWellFormed staff
    → (rs : List LocalMinuteRange) × (effective_work_ranges staff date ≡ ok rs)
      × All IsValid rs
      × ((m : ℕ) → covered m rs ≡ is_working staff date m)
unfolding effective_work_ranges on_date
effective_work_ranges-covers staff date well =
    let closing =
      any-select (λ e. e.local_date == date) (λ e. contains e.kind all_day_exception_kinds)
        staff.date_exceptions
      ∙ all_day-on_date date staff.date_exceptions in
    elim (Bool-cases (any (all_day_exception date) staff.date_exceptions)) [
      | inl closed ↦ ([], rw (closing ∙ closed), tt, λ m. rw closed)
      | inr opened ↦
          let (rs, returned, valid, same) =
            subtract_ranges-covers (work_on staff date) (breaks_on staff date)
              (work_on-IsValid staff date well) in
          (
            rs,
            rw (closing ∙ opened) returned,
            valid,
            λ m. rw opened (
                same m
                ∙ ap₂ (λ a b. a && not b) (covered-work_on staff date m)
                    (covered-breaks_on staff date m)),
          )
    ]
