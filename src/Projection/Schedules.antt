-- ===== src/Projection/Schedules.antt =====
-- app/domain/schedule_projection.py: the schedule of one member of the staff, the checks that
-- its construction runs, and the working ranges of one date. A date is the number of days since
-- the first of January of the year 1, a Monday.
use lanrouge_nails_bot.Base.{
  ℕ, ◌%◌, Bool, true, false, not, ◌&&◌, ◌||◌, Option, none, some, List, [], ◌∷◌, ◌++◌, any, select,
  ltb, leb, ◌==◌, if◌then◌else◌,
}
use lanrouge_nails_bot.Enums.{
  ScheduleIntervalKind, schedule_interval_kind_enum, ScheduleExceptionKind,
  schedule_exception_kind_enum, ◌is◌, contains,
}
use lanrouge_nails_bot.Errors.{Result, ok, err, window_validation, ◌>>=◌, ◌>>◌, raise_if}
use lanrouge_nails_bot.Time.{Datetime, naive, aware}
use lanrouge_nails_bot.Text.{Text, strip, is_empty}
use lanrouge_nails_bot.Projection.Ranges.{
  LocalMinuteRange, ensure_ranges_do_not_overlap, subtract_ranges,
}
use lanrouge_nails_bot.Projection.Groups.{Groups, pair_key, setdefault_append, ensure_groups}
pub mod Checks
pub mod Exceptions
pub mod Intervals
pub mod Opening

abbrev pub all_day_exception_kinds : List ScheduleExceptionKind
all_day_exception_kinds =
    ScheduleExceptionKind.day_off ∷ ScheduleExceptionKind.leave ∷ ScheduleExceptionKind.sick ∷ []

abbrev pub timed_exception_kinds : List ScheduleExceptionKind
timed_exception_kinds = ScheduleExceptionKind.working_window ∷ ScheduleExceptionKind.break ∷ []

pub record WeeklyScheduleRule : Type 0 where
  pub weekday : ℕ
  pub kind : ScheduleIntervalKind
  pub interval : LocalMinuteRange

unfoldable pub weekly_schedule_rule : WeeklyScheduleRule → Result WeeklyScheduleRule
weekly_schedule_rule rule = raise_if (not (leb rule.weekday 6)) window_validation >> ok rule

pub record DateScheduleException : Type 0 where
  pub local_date : ℕ
  pub kind : ScheduleExceptionKind
  pub interval : Option LocalMinuteRange

abbrev pub is_none : {A : Type 0} → Option A → Bool
is_none none = true
is_none (some _) = false

unfoldable pub date_schedule_exception : DateScheduleException → Result DateScheduleException
date_schedule_exception e = do
  raise_if (contains e.kind timed_exception_kinds && is_none e.interval) window_validation
  raise_if (contains e.kind all_day_exception_kinds && not (is_none e.interval)) window_validation
  ok e

-- The instants of an occupied half-open interval.
pub record BusyPeriod : Type 0 where
  pub start_at : ℕ
  pub end_at : ℕ

unfoldable pub busy_period : Datetime → Datetime → Result BusyPeriod
busy_period (aware start_at) (aware end_at) = do
  raise_if (leb end_at start_at) window_validation
  ok (record { start_at = start_at; end_at = end_at })
busy_period _ _ = err window_validation

pub record StaffScheduleDefinition : Type 0 where
  pub staff_member_id : ℕ
  pub display_name : Text
  pub duration_minutes : ℕ
  pub weekly_rules : List WeeklyScheduleRule
  pub date_exceptions : List DateScheduleException
  pub busy_periods : List BusyPeriod
  pub sort_order : ℕ
  pub is_active : Bool
  pub is_bookable : Bool
  pub schedule_paused_until : Option Datetime

-- `grouped` after the loop of `_ensure_weekly_rules_do_not_overlap`, keyed by weekday and kind.
unfoldable pub group_weekly_rules :
    Groups (ℕ × ScheduleIntervalKind) → List WeeklyScheduleRule → Groups (ℕ × ScheduleIntervalKind)
group_weekly_rules grouped [] = grouped
group_weekly_rules grouped (rule ∷ rules) =
    group_weekly_rules (setdefault_append (rule.weekday, rule.kind) rule.interval grouped) rules

unfoldable pub ensure_weekly_rules_do_not_overlap : List WeeklyScheduleRule → Result Unit
unfolding group_weekly_rules
ensure_weekly_rules_do_not_overlap rules = ensure_groups (group_weekly_rules [] rules)

-- The body of the loop of `_ensure_date_exceptions_do_not_overlap`, on the grouped intervals and
-- the dates that have an all-day exception.
unfoldable pub scan_exception :
    Groups (ℕ × ScheduleExceptionKind)
    → List ℕ
    → DateScheduleException
    → Result (Groups (ℕ × ScheduleExceptionKind) × List ℕ)
scan_exception grouped all_day_dates e =
    if contains e.kind all_day_exception_kinds
    then (raise_if (any (λ d. d == e.local_date) all_day_dates) window_validation
        >> ok (grouped, e.local_date ∷ all_day_dates))
    else elim e.interval [
      | none ↦ ok (grouped, all_day_dates)
      | some interval ↦
          ok (setdefault_append (e.local_date, e.kind) interval grouped, all_day_dates)
    ]

unfoldable pub scan_exceptions :
    Groups (ℕ × ScheduleExceptionKind)
    → List ℕ
    → List DateScheduleException
    → Result (Groups (ℕ × ScheduleExceptionKind))
scan_exceptions grouped all_day_dates [] = ok grouped
scan_exceptions grouped all_day_dates (e ∷ exceptions) = do
  scanned ← scan_exception grouped all_day_dates e
  scan_exceptions scanned.0 scanned.1 exceptions

unfoldable pub ensure_date_exceptions_do_not_overlap : List DateScheduleException → Result Unit
unfolding scan_exceptions
ensure_date_exceptions_do_not_overlap exceptions = do
  grouped ← scan_exceptions [] [] exceptions
  ensure_groups grouped

is_naive : Option Datetime → Bool
is_naive (some (naive _)) = true
is_naive _ = false

-- The checks of `StaffScheduleDefinition.__post_init__`.
unfoldable pub staff_schedule_definition : StaffScheduleDefinition → Result StaffScheduleDefinition
unfolding is_naive
staff_schedule_definition staff = do
  raise_if (leb staff.staff_member_id 0) window_validation
  raise_if (is_empty (strip staff.display_name)) window_validation
  raise_if (not (leb 1 staff.duration_minutes && leb staff.duration_minutes 1440)) window_validation
  raise_if (is_naive staff.schedule_paused_until) window_validation
  ensure_weekly_rules_do_not_overlap staff.weekly_rules
  ensure_date_exceptions_do_not_overlap staff.date_exceptions
  ok staff

-- `date.weekday()`
abbrev pub weekday_of : ℕ → ℕ
weekday_of local_date = local_date % 7

-- The intervals of the exceptions of one kind, those without an interval left out.
unfoldable pub exception_intervals :
    ScheduleExceptionKind → List DateScheduleException → List LocalMinuteRange
exception_intervals kind [] = []
exception_intervals kind (e ∷ exceptions) =
    let rest = exception_intervals kind exceptions in
    elim e.interval [
      | none ↦ rest
      | some interval ↦ if e.kind is kind then interval ∷ rest else rest
    ]

-- The intervals of the rules for one weekday and of one kind.
unfoldable pub rule_intervals :
    ℕ → ScheduleIntervalKind → List WeeklyScheduleRule → List LocalMinuteRange
rule_intervals weekday kind [] = []
rule_intervals weekday kind (rule ∷ rules) =
    let rest = rule_intervals weekday kind rules in
    if rule.weekday == weekday && (rule.kind is kind) then rule.interval ∷ rest else rest

-- `custom_work or weekly_work`
pub or_else : List LocalMinuteRange → List LocalMinuteRange → List LocalMinuteRange
or_else [] other = other
or_else (r ∷ rs) other = r ∷ rs

unfoldable pub effective_work_ranges : StaffScheduleDefinition → ℕ → Result (List LocalMinuteRange)
unfolding or_else
effective_work_ranges staff local_date =
    let exceptions = select (λ e. e.local_date == local_date) staff.date_exceptions in
    if any (λ e. contains e.kind all_day_exception_kinds) exceptions
    then ok []
    else let custom_work = exception_intervals ScheduleExceptionKind.working_window exceptions in
      let weekly_work =
        rule_intervals (weekday_of local_date) ScheduleIntervalKind.work staff.weekly_rules in
      let breaks =
        rule_intervals (weekday_of local_date) ScheduleIntervalKind.break staff.weekly_rules
        ++ exception_intervals ScheduleExceptionKind.break exceptions in
      subtract_ranges (or_else custom_work weekly_work) breaks
