-- ===== src/Projection/Slots.antt =====
-- app/domain/schedule_projection.py: the bookable slots of one member of the staff on one date.
use lanrouge_nails_bot.Base.{
  ℕ, zero, suc, ◌+◌, ◌-◌, Bool, true, false, not, ◌&&◌, Option, none, some, List, [], ◌∷◌, ◌++◌,
  any, ltb, leb, if◌then◌else◌,
}
use lanrouge_nails_bot.Errors.{Result, ok, ◌>>=◌}
use lanrouge_nails_bot.Text.{Text}
use lanrouge_nails_bot.Time.{Datetime, naive, aware, minutes}
use lanrouge_nails_bot.Projection.Ranges.{LocalMinuteRange}
use lanrouge_nails_bot.Projection.Schedules.{
  BusyPeriod, StaffScheduleDefinition, effective_work_ranges,
}
use lanrouge_nails_bot.Projection.Zones.{Zone, resolve_boundary}
pub mod Offers
pub mod Working

pub record ProjectedSlot : Type 0 where
  pub staff_member_id : ℕ
  pub staff_display_name : Text
  pub start_at : ℕ
  pub end_at : ℕ
  pub local_start : ℕ
  pub local_end : ℕ

-- `schedule_paused_until.astimezone(UTC)`; a schedule's construction refuses a naive one.
abbrev pub pause_until : StaffScheduleDefinition → Option ℕ
pause_until staff = elim staff.schedule_paused_until [
  | none ↦ none
  | some (aware t) ↦ some t
  | some (naive t) ↦ some t
]

-- `pause_until is None or cursor >= pause_until`
abbrev pub not_paused : Option ℕ → ℕ → Bool
not_paused none cursor = true
not_paused (some until) cursor = leb until cursor

abbrev pub is_busy : ℕ → ℕ → List BusyPeriod → Bool
is_busy cursor slot_end = any (λ busy. ltb cursor busy.end_at && ltb busy.start_at slot_end)

-- The test under which the loop appends a slot.
unfoldable pub is_offered : StaffScheduleDefinition → ℕ → ℕ → Bool
is_offered staff now cursor =
    ltb now cursor
    && (not_paused (pause_until staff) cursor
        && not (is_busy cursor (cursor + minutes staff.duration_minutes) staff.busy_periods))

abbrev pub slot_at : Zone → StaffScheduleDefinition → ℕ → ProjectedSlot
slot_at zone staff cursor = record {
  staff_member_id = staff.staff_member_id;
  staff_display_name = staff.display_name;
  start_at = cursor;
  end_at = cursor + minutes staff.duration_minutes;
  local_start = (zone.to_local cursor).0;
  local_end = (zone.to_local (cursor + minutes staff.duration_minutes)).0;
}

module _ (zone : Zone) (staff : StaffScheduleDefinition) (now slot_step_minutes : ℕ) where
  -- `while cursor + duration <= range_end`, on fuel.
  unfoldable pub scan_slots : ℕ → ℕ → ℕ → List ProjectedSlot
  scan_slots zero range_end cursor = []
  scan_slots (suc fuel) range_end cursor =
      let rest = scan_slots fuel range_end (cursor + minutes slot_step_minutes) in
      if leb (cursor + minutes staff.duration_minutes) range_end
      then (if is_offered staff now cursor then slot_at zone staff cursor ∷ rest else rest)
      else []

  -- The loop from the start of a range: each round moves the cursor by a microsecond or more.
  unfoldable pub range_slots : ℕ → ℕ → List ProjectedSlot
  unfolding scan_slots
  range_slots range_start range_end =
      scan_slots (suc (range_end - range_start)) range_end range_start

  unfoldable pub project_ranges : ℕ → List LocalMinuteRange → Result (List ProjectedSlot)
  unfolding range_slots
  project_ranges local_date [] = ok []
  project_ranges local_date (work_range ∷ work_ranges) = do
    range_start ← resolve_boundary zone local_date work_range.start false
    range_end ← resolve_boundary zone local_date work_range.end true
    rest ← project_ranges local_date work_ranges
    ok (range_slots range_start range_end ++ rest)

  unfoldable pub project_staff_day : ℕ → Result (List ProjectedSlot)
  unfolding project_ranges
  project_staff_day local_date = do
    work_ranges ← effective_work_ranges staff local_date
    project_ranges local_date work_ranges
