-- ===== src/Projection/Schedules/Exceptions.antt =====
-- What the construction of a schedule checks of its date exceptions.
use lanrouge_nails_bot.Base.{
  ℕ, ◌≡◌, ◌≢◌, ◌↔◌, refl, sym, ap, ◌∙◌, Bool, true, false, Option, none, some, List, [], ◌∷◌, All,
  AllPairs, any, ◌==◌, eq→==, Bool-cases, inl, inr, arith, if◌then◌else◌,
}
use lanrouge_nails_bot.Enums.{ScheduleExceptionKind, schedule_exception_kind_enum, contains}
use lanrouge_nails_bot.Errors.{Result, ok, >>=-eq-ok, ok-injective}
use lanrouge_nails_bot.Projection.Ranges.{LocalMinuteRange}
use lanrouge_nails_bot.Projection.Ranges.Coverage.{IsValid}
use lanrouge_nails_bot.Projection.Groups.{Groups, pair_key, setdefault_append}
use lanrouge_nails_bot.Projection.Groups.Checks.{
  group_items, Apart, group_items-AreValid, group_items_iff, ensure_groups_sound,
  ensure_groups_complete,
}
use lanrouge_nails_bot.Projection.Schedules.{
  DateScheduleException, all_day_exception_kinds, scan_exception, scan_exceptions,
  ensure_date_exceptions_do_not_overlap,
}

abbrev pub is_all_day : DateScheduleException → Bool
is_all_day e = contains e.kind all_day_exception_kinds

abbrev keyed :
    DateScheduleException
    → Option LocalMinuteRange
    → List ((ℕ × ScheduleExceptionKind) × LocalMinuteRange)
    → List ((ℕ × ScheduleExceptionKind) × LocalMinuteRange)
keyed e none items = items
keyed e (some r) items = ((e.local_date, e.kind), r) ∷ items

-- The intervals of the exceptions that are not for the whole day, each under its date and kind.
abbrev pub timed_entries :
    List DateScheduleException → List ((ℕ × ScheduleExceptionKind) × LocalMinuteRange)
timed_entries [] = []
timed_entries (e ∷ es) =
    let rest = timed_entries es in if is_all_day e then rest else keyed e e.interval rest

-- Two exceptions for whole days are for different dates.
abbrev pub AllDayApart : DateScheduleException → DateScheduleException → Type 0
AllDayApart a b = is_all_day a ≡ true → is_all_day b ≡ true → a.local_date ≢ b.local_date

-- No exception for a whole day is for one of the dates.
abbrev IsClear : List ℕ → DateScheduleException → Type 0
IsClear dates e = is_all_day e ≡ true → any (λ d. d == e.local_date) dates ≡ false

-- The dates of whole days that are there after an exception.
abbrev with_date : DateScheduleException → List ℕ → List ℕ
with_date e dates = if is_all_day e then e.local_date ∷ dates else dates

abbrev with_entry :
    DateScheduleException → Groups (ℕ × ScheduleExceptionKind) → Groups (ℕ × ScheduleExceptionKind)
with_entry e grouped = group_items grouped (if is_all_day e then [] else keyed e e.interval [])

scan_interval :
    (grouped : Groups (ℕ × ScheduleExceptionKind)) (dates : List ℕ) (e : DateScheduleException)
    (o : Option LocalMinuteRange)
    → elim o as (λ _. Result (Groups (ℕ × ScheduleExceptionKind) × List ℕ)) [
      | none ↦ ok (grouped, dates)
      | some interval ↦ ok (setdefault_append (e.local_date, e.kind) interval grouped, dates)
    ]
      ≡ ok (group_items grouped (keyed e o []), dates)
scan_interval grouped dates e none = refl
scan_interval grouped dates e (some r) = refl

scan_exception_iff :
    (grouped : Groups (ℕ × ScheduleExceptionKind)) (dates : List ℕ) (e : DateScheduleException)
    → (IsClear dates e
        → scan_exception grouped dates e ≡ ok (with_entry e grouped, with_date e dates))
      × ((s : Groups (ℕ × ScheduleExceptionKind) × List ℕ)
          → scan_exception grouped dates e ≡ ok s
          → IsClear dates e)
unfolding scan_exception
scan_exception_iff grouped dates e = elim (Bool-cases (is_all_day e)) [
  | inl whole ↦ rw whole (λ clear. rw (clear refl) refl, λ s h all. ground arith)
  | inr timed ↦
      rw timed (λ clear. scan_interval grouped dates e e.interval, λ s h all. ground arith)
]

after_date :
    (e : DateScheduleException) (dates : List ℕ) (x : DateScheduleException)
    → IsClear (with_date e dates) x ↔ (IsClear dates x × AllDayApart e x)
after_date e dates x = elim (Bool-cases (is_all_day e)) [
  | inl whole ↦ rw whole (
    λ h. (
      λ all. ground (arith, h all),
      λ _ all same. ground (arith, h all, eq→== e.local_date x.local_date same),
    ),
    λ (clear, apart) all. ground (arith, clear all, apart refl all),
  )
  | inr timed ↦ rw timed (λ h. (h, λ impossible. ground arith), λ h. h.0)
]

after_dates :
    (e : DateScheduleException) (dates : List ℕ) (es : List DateScheduleException)
    → All (IsClear (with_date e dates)) es ↔ (All (IsClear dates) es × All (AllDayApart e) es)
after_dates e dates [] = (λ h. (tt, tt), λ h. tt)
after_dates e dates (x ∷ es) = (
  λ h. (
    (((after_date e dates x).0 h.0).0, ((after_dates e dates es).0 h.1).0),
    (((after_date e dates x).0 h.0).1, ((after_dates e dates es).0 h.1).1),
  ),
  λ h. ((after_date e dates x).1 (h.0.0, h.1.0), (after_dates e dates es).1 (h.0.1, h.1.1)),
)

entries_step :
    (grouped : Groups (ℕ × ScheduleExceptionKind)) (e : DateScheduleException)
    (o : Option LocalMinuteRange) (rest : List ((ℕ × ScheduleExceptionKind) × LocalMinuteRange))
    → group_items (group_items grouped (keyed e o [])) rest ≡ group_items grouped (keyed e o rest)
entries_step grouped e none rest = refl
entries_step grouped e (some r) rest = refl

entries :
    (grouped : Groups (ℕ × ScheduleExceptionKind)) (e : DateScheduleException)
    (es : List DateScheduleException)
    → group_items (with_entry e grouped) (timed_entries es)
      ≡ group_items grouped (timed_entries (e ∷ es))
entries grouped e es = elim (Bool-cases (is_all_day e)) [
  | inl whole ↦ rw whole refl
  | inr timed ↦ rw timed (entries_step grouped e e.interval (timed_entries es))
]

scan_exceptions_iff :
    (grouped : Groups (ℕ × ScheduleExceptionKind)) (dates : List ℕ)
    (es : List DateScheduleException)
    → (All (IsClear dates) es × AllPairs AllDayApart es
        → scan_exceptions grouped dates es ≡ ok (group_items grouped (timed_entries es)))
      × ((g : Groups (ℕ × ScheduleExceptionKind))
          → scan_exceptions grouped dates es ≡ ok g
          → All (IsClear dates) es × AllPairs AllDayApart es)
unfolding scan_exceptions
scan_exceptions_iff grouped dates [] = (λ h. refl, λ g h. (tt, tt))
scan_exceptions_iff grouped dates (e ∷ es) =
    let (to, from) = scan_exception_iff grouped dates e in
    let (to_rest, from_rest) = scan_exceptions_iff (with_entry e grouped) (with_date e dates) es in
    (
      λ h. rw (to h.0.0) (
          to_rest ((after_dates e dates es).1 (h.0.1, h.1.0), h.1.1)
          ∙ ap ok (entries grouped e es)),
      λ g h.
          let (s, first, rest) = >>=-eq-ok (scan_exception grouped dates e) _ h in
          let clear = from s first in
          let same : s ≡ (with_entry e grouped, with_date e dates) =
            ok-injective (sym first ∙ to clear) in
          let (later, apart) =
            from_rest g (ap (λ p. scan_exceptions p.0 p.1 es) (sym same) ∙ rest) in
          let (clear_later, apart_first) = (after_dates e dates es).0 later in
          ((clear, clear_later), (apart_first, apart)),
    )

any_date : (es : List DateScheduleException) → All (IsClear []) es
any_date [] = tt
any_date (e ∷ es) = (λ _. refl, any_date es)

-- For exceptions with valid intervals, the check of the date exceptions passes exactly when no two
-- exceptions for a whole day are for one date and no two timed ones for one date and of one kind
-- overlap.
ensure_date_exceptions_do_not_overlap_iff :
    (es : List DateScheduleException)
    → All (λ entry. IsValid entry.1) (timed_entries es)
    → (ensure_date_exceptions_do_not_overlap es ≡ ok tt)
      ↔ (AllPairs AllDayApart es × AllPairs Apart (timed_entries es))
unfolding ensure_date_exceptions_do_not_overlap
ensure_date_exceptions_do_not_overlap_iff es v =
    let valid = group_items-AreValid [] (timed_entries es) v tt in
    let (to, from) = group_items_iff (timed_entries es) in
    let (returns, returned) = scan_exceptions_iff [] [] es in
    (
      λ h.
          let (g, scanned, checked) = >>=-eq-ok (scan_exceptions [] [] es) _ h in
          let (_, apart) = returned g scanned in
          let same : g ≡ group_items [] (timed_entries es) =
            ok-injective (sym scanned ∙ returns (any_date es, apart)) in
          (apart, to (ensure_groups_sound _ valid (rw (← same) checked))),
      λ h. rw (returns (any_date es, h.0)) (ensure_groups_complete _ valid (from h.1)),
    )
