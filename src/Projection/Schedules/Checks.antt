-- ===== src/Projection/Schedules/Checks.antt =====
-- What the construction of a schedule checks of its rules and exceptions.
use lanrouge_nails_bot.Base.{ℕ, ◌≡◌, ◌↔◌, refl, ap, List, [], ◌∷◌, map, All, All-map, AllPairs}
use lanrouge_nails_bot.Enums.{
  ScheduleIntervalKind, schedule_interval_kind_enum, schedule_exception_kind_enum,
}
use lanrouge_nails_bot.Errors.{ok}
use lanrouge_nails_bot.Projection.Ranges.{LocalMinuteRange}
use lanrouge_nails_bot.Projection.Ranges.Coverage.{IsValid}
use lanrouge_nails_bot.Projection.Ranges.Disjoint.{Disjoint}
use lanrouge_nails_bot.Projection.Groups.{Groups, pair_key, setdefault_append}
use lanrouge_nails_bot.Projection.Groups.Checks.{
  group_items, Apart, group_items-AreValid, group_items_iff, ensure_groups_sound,
  ensure_groups_complete,
}
use lanrouge_nails_bot.Projection.Schedules.{
  WeeklyScheduleRule, group_weekly_rules, ensure_weekly_rules_do_not_overlap,
}

abbrev entry : WeeklyScheduleRule → (ℕ × ScheduleIntervalKind) × LocalMinuteRange
entry rule = ((rule.weekday, rule.kind), rule.interval)

group_weekly_rules_lem :
    (grouped : Groups (ℕ × ScheduleIntervalKind)) (rules : List WeeklyScheduleRule)
    → group_weekly_rules grouped rules ≡ group_items grouped (map entry rules)
unfolding group_weekly_rules
group_weekly_rules_lem grouped [] = refl
group_weekly_rules_lem grouped (rule ∷ rules) =
    group_weekly_rules_lem (setdefault_append (rule.weekday, rule.kind) rule.interval grouped) rules

All-entries :
    (P : (ℕ × ScheduleIntervalKind) × LocalMinuteRange → Type 0) (rules : List WeeklyScheduleRule)
    → All P (map entry rules) ↔ All (λ r. P (entry r)) rules
All-entries P [] = (λ h. h, λ h. h)
All-entries P (r ∷ rules) =
    (λ h. (h.0, (All-entries _ rules).0 h.1), λ h. (h.0, (All-entries _ rules).1 h.1))

-- Two rules for one weekday and of one kind do not overlap.
abbrev pub RulesApart : WeeklyScheduleRule → WeeklyScheduleRule → Type 0
RulesApart a b = a.weekday ≡ b.weekday → a.kind ≡ b.kind → Disjoint a.interval b.interval

Apart-entries :
    (rules : List WeeklyScheduleRule) → AllPairs Apart (map entry rules) ↔ AllPairs RulesApart rules
Apart-entries [] = (λ h. h, λ h. h)
Apart-entries (r ∷ rules) = (
  λ h. (
    All-map (λ s f d k. f (λ i. (d i, k i))) rules ((All-entries _ rules).0 h.0),
    (Apart-entries rules).0 h.1,
  ),
  λ h. (
    (All-entries _ rules).1 (All-map (λ s f e. f (ap (λ p. p.0) e) (ap (λ p. p.1) e)) rules h.0),
    (Apart-entries rules).1 h.1,
  ),
)

-- For rules with valid ranges, the weekly check passes exactly when no two rules for one weekday
-- and of one kind overlap.
pub ensure_weekly_rules_do_not_overlap_iff :
    (rules : List WeeklyScheduleRule)
    → All (λ rule. IsValid rule.interval) rules
    → (ensure_weekly_rules_do_not_overlap rules ≡ ok tt) ↔ AllPairs RulesApart rules
unfolding ensure_weekly_rules_do_not_overlap
ensure_weekly_rules_do_not_overlap_iff rules v =
    let valid =
      group_items-AreValid [] (map entry rules) ((All-entries (λ i. IsValid i.1) rules).1 v) tt in
    let (to, from) = group_items_iff (map entry rules) in
    rw (group_weekly_rules_lem [] rules) (
      λ h. (Apart-entries rules).0 (to (ensure_groups_sound _ valid h)),
      λ d. ensure_groups_complete _ valid (from ((Apart-entries rules).1 d)),
    )
