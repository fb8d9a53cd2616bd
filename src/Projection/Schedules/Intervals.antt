-- ===== src/Projection/Schedules/Intervals.antt =====
-- The intervals of the rules and exceptions of a date, minute by minute.
use lanrouge_nails_bot.Base.{
  ℕ, ◌≡◌, refl, Bool, true, false, not, ◌&&◌, Option, none, some, Option-cases, inl, inr, ap, ◌∙◌,
  List, [], ◌∷◌, any, select, All, ◌==◌, arith, if◌then◌else◌,
}
use lanrouge_nails_bot.Enums.{
  ScheduleIntervalKind, schedule_interval_kind_enum, ScheduleExceptionKind,
  schedule_exception_kind_enum, ◌is◌,
}
use lanrouge_nails_bot.Projection.Ranges.{LocalMinuteRange}
use lanrouge_nails_bot.Projection.Ranges.Coverage.{IsValid, covers, covered}
use lanrouge_nails_bot.Projection.Schedules.{
  WeeklyScheduleRule, DateScheduleException, exception_intervals, rule_intervals, weekday_of,
  or_else,
}

-- The interval of an exception, if it has one, is a valid range.
abbrev pub HasValidInterval : DateScheduleException → Type 0
HasValidInterval e = (r : LocalMinuteRange) → e.interval ≡ some r → IsValid r

abbrev interval_covers : ℕ → Option LocalMinuteRange → Bool
interval_covers m none = false
interval_covers m (some r) = covers m r

abbrev has_interval : Option LocalMinuteRange → Bool
has_interval none = false
has_interval (some r) = true

-- An exception of the kind, on the date, whose interval holds the minute.
abbrev pub exception_at : ℕ → ScheduleExceptionKind → ℕ → DateScheduleException → Bool
exception_at date kind m e =
    e.local_date == date && ((e.kind is kind) && interval_covers m e.interval)

-- An exception of the kind, on the date, with an interval.
abbrev pub timed_exception : ℕ → ScheduleExceptionKind → DateScheduleException → Bool
timed_exception date kind e = e.local_date == date && ((e.kind is kind) && has_interval e.interval)

abbrev pub rule_at : ℕ → ScheduleIntervalKind → ℕ → WeeklyScheduleRule → Bool
rule_at date kind m rule =
    (rule.weekday == weekday_of date && (rule.kind is kind)) && covers m rule.interval

unfoldable pub on_date : ℕ → List DateScheduleException → List DateScheduleException
on_date date = select (λ e. e.local_date == date)

pub any-select :
    (p q : DateScheduleException → Bool) (es : List DateScheduleException)
    → any q (select p es) ≡ any (λ e. p e && q e) es
any-select p q [] = refl
any-select p q (e ∷ es) = ground (arith, any-select p q es)

covered-exception_intervals :
    (m : ℕ) (kind : ScheduleExceptionKind) (es : List DateScheduleException)
    → covered m (exception_intervals kind es)
      ≡ any (λ e. (e.kind is kind) && interval_covers m e.interval) es
unfolding exception_intervals
covered-exception_intervals m kind [] = refl
covered-exception_intervals m kind (e ∷ es) = ground (arith, covered-exception_intervals m kind es)

pub covered-exceptions :
    (date m : ℕ) (kind : ScheduleExceptionKind) (es : List DateScheduleException)
    → covered m (exception_intervals kind (on_date date es)) ≡ any (exception_at date kind m) es
unfolding on_date
covered-exceptions date m kind es =
    covered-exception_intervals m kind (on_date date es)
    ∙ any-select (λ e. e.local_date == date) (λ e. (e.kind is kind) && interval_covers m e.interval)
        es

abbrev is_nil : List LocalMinuteRange → Bool
is_nil [] = true
is_nil (_ ∷ _) = false

is_nil-exception_intervals :
    (kind : ScheduleExceptionKind) (es : List DateScheduleException)
    → is_nil (exception_intervals kind es)
      ≡ not (any (λ e. (e.kind is kind) && has_interval e.interval) es)
unfolding exception_intervals
is_nil-exception_intervals kind [] = refl
is_nil-exception_intervals kind (e ∷ es) = ground (arith, is_nil-exception_intervals kind es)

pub is_nil-exceptions :
    (date : ℕ) (kind : ScheduleExceptionKind) (es : List DateScheduleException)
    → is_nil (exception_intervals kind (on_date date es)) ≡ not (any (timed_exception date kind) es)
unfolding on_date
is_nil-exceptions date kind es =
    is_nil-exception_intervals kind (on_date date es)
    ∙ ap not (
        any-select (λ e. e.local_date == date) (λ e. (e.kind is kind) && has_interval e.interval)
          es)

pub covered-rules :
    (date m : ℕ) (kind : ScheduleIntervalKind) (rules : List WeeklyScheduleRule)
    → covered m (rule_intervals (weekday_of date) kind rules) ≡ any (rule_at date kind m) rules
unfolding rule_intervals
covered-rules date m kind [] = refl
covered-rules date m kind (rule ∷ rules) = ground (arith, covered-rules date m kind rules)

pub covered-or_else :
    (m : ℕ) (rs other : List LocalMinuteRange)
    → covered m (or_else rs other) ≡ (if is_nil rs then covered m other else covered m rs)
unfolding or_else
covered-or_else m [] other = refl
covered-or_else m (r ∷ rs) other = refl

pub exceptions-IsValid :
    (kind : ScheduleExceptionKind) (es : List DateScheduleException)
    → All HasValidInterval es
    → All IsValid (exception_intervals kind es)
unfolding exception_intervals
exceptions-IsValid kind [] v = tt
exceptions-IsValid kind (e ∷ es) v = elim (Option-cases e.interval) [
  | inl without ↦ rw without (exceptions-IsValid kind es v.1)
  | inr (r, with_interval) ↦
      rw with_interval (ground (arith, v.0 r with_interval, exceptions-IsValid kind es v.1))
]

pub rules-IsValid :
    (weekday : ℕ) (kind : ScheduleIntervalKind) (rules : List WeeklyScheduleRule)
    → All (λ rule. IsValid rule.interval) rules
    → All IsValid (rule_intervals weekday kind rules)
unfolding rule_intervals
rules-IsValid weekday kind [] v = tt
rules-IsValid weekday kind (rule ∷ rules) v = ground (arith, rules-IsValid weekday kind rules v.1)

pub or_else-IsValid :
    (rs other : List LocalMinuteRange)
    → All IsValid rs
    → All IsValid other
    → All IsValid (or_else rs other)
unfolding or_else
or_else-IsValid [] other v w = w
or_else-IsValid (r ∷ rs) other v w = v
