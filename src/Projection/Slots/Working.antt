-- ===== src/Projection/Slots/Working.antt =====
-- What is promised of every slot of a day: it is free, and it is working time.
use lanrouge_nails_bot.Base.{
  ℕ, ◌+◌, ◌-◌, ◌≤◌, ◌<◌, ◌≡◌, ◌⊎◌, refl, sym, ◌∙◌, true, false, some, List, [], ◌∷◌, ◌++◌, All,
  All-append, All-map, le→leb, lt→ltb, ap, arith,
}
use lanrouge_nails_bot.Errors.{ok, ok-injective, >>=-eq-ok}
use lanrouge_nails_bot.Time.{aware, minutes, days}
use lanrouge_nails_bot.Projection.Ranges.{LocalMinuteRange}
use lanrouge_nails_bot.Projection.Ranges.Coverage.{covers, covered}
use lanrouge_nails_bot.Projection.Schedules.{
  BusyPeriod, StaffScheduleDefinition, effective_work_ranges,
}
use lanrouge_nails_bot.Projection.Schedules.Opening.{
  IsWellFormed, is_working, effective_work_ranges-covers,
}
use lanrouge_nails_bot.Projection.Zones.{Zone, resolve_boundary}
use lanrouge_nails_bot.Projection.Zones.Fixed.{ahead_of_utc, resolve_boundary-ahead}
use lanrouge_nails_bot.Projection.Slots.{
  ProjectedSlot, pause_until, not_paused, is_busy, is_offered, range_slots, project_ranges,
  project_staff_day,
}
use lanrouge_nails_bot.Projection.Slots.Offers.{FitsFrom, range_slots-Fits}

-- A busy period and a slot have no instant in common.
abbrev pub Avoids : ProjectedSlot → BusyPeriod → Type 0
Avoids s busy = (busy.end_at ≤ s.start_at) ⊎ (s.end_at ≤ busy.start_at)

-- A slot that may be booked: of the schedule's owner and duration, in the future, not in a pause
-- and not in a busy period.
pub record IsBookable (staff : StaffScheduleDefinition) (now : ℕ) (s : ProjectedSlot) : Type 0 where
  pub owner : s.staff_member_id ≡ staff.staff_member_id
  pub lasts : s.end_at ≡ s.start_at + minutes staff.duration_minutes
  pub future : now < s.start_at
  pub resumed : (t : ℕ) → staff.schedule_paused_until ≡ some (aware t) → t ≤ s.start_at
  pub free : All (Avoids s) staff.busy_periods

offered_parts :
    (staff : StaffScheduleDefinition) (now cursor : ℕ)
    → is_offered staff now cursor ≡ true
    → (now < cursor)
      × (not_paused (pause_until staff) cursor ≡ true)
      × (is_busy cursor (cursor + minutes staff.duration_minutes) staff.busy_periods ≡ false)
unfolding is_offered
offered_parts staff now cursor h = ground arith

free-Avoids :
    (s : ProjectedSlot) (busy : List BusyPeriod)
    → is_busy s.start_at s.end_at busy ≡ false
    → All (Avoids s) busy
free-Avoids s [] h = tt
free-Avoids s (b ∷ busy) h = (ground arith, free-Avoids s busy (ground arith))

resumed_lem :
    (staff : StaffScheduleDefinition) (cursor t : ℕ)
    → not_paused (pause_until staff) cursor ≡ true
    → staff.schedule_paused_until ≡ some (aware t)
    → t ≤ cursor
resumed_lem staff cursor t h e = ground arith

Fits-IsBookable :
    (zone : Zone) (staff : StaffScheduleDefinition) (now step range_start range_end : ℕ)
    (s : ProjectedSlot)
    → FitsFrom zone staff now step range_start range_end s
    → IsBookable staff now s
Fits-IsBookable zone staff now step range_start range_end s (built, offered, from, over) =
    let (future, running, free) = offered_parts staff now s.start_at offered in
    let lasts : s.end_at ≡ s.start_at + minutes staff.duration_minutes = ap (λ t. t.end_at) built in
    record {
      owner = ap (λ t. t.staff_member_id) built;
      lasts = lasts;
      future = future;
      resumed = λ t. resumed_lem staff s.start_at t running;
      free = free-Avoids s staff.busy_periods (rw lasts free);
    }

project_ranges-IsBookable :
    (zone : Zone) (staff : StaffScheduleDefinition) (now step date : ℕ) (rs : List LocalMinuteRange)
    (ss : List ProjectedSlot)
    → project_ranges zone staff now step date rs ≡ ok ss
    → All (IsBookable staff now) ss
unfolding project_ranges
project_ranges-IsBookable zone staff now step date [] ss h = rw (← ok-injective h) tt
project_ranges-IsBookable zone staff now step date (r ∷ rs) ss h =
    let (first, h₁, h₂) = >>=-eq-ok (resolve_boundary zone date r.start false) _ h in
    let (last, h₃, h₄) = >>=-eq-ok (resolve_boundary zone date r.end true) _ h₂ in
    let (rest, h₅, h₆) = >>=-eq-ok (project_ranges zone staff now step date rs) _ h₄ in
    rw (← ok-injective h₆) (
      All-append (IsBookable staff now) (range_slots zone staff now step first last) rest
        (All-map (Fits-IsBookable zone staff now step first last)
          (range_slots zone staff now step first last)
          (range_slots-Fits zone staff now step first last))
        (project_ranges-IsBookable zone staff now step date rs rest h₅))

-- In every zone, each slot of a day's projection is the owner's, lasts the service's duration,
-- starts after the current time and not before the end of a pause, and has no instant in common
-- with a busy period.
pub project_staff_day-IsBookable :
    (zone : Zone) (staff : StaffScheduleDefinition) (now step date : ℕ) (ss : List ProjectedSlot)
    → project_staff_day zone staff now step date ≡ ok ss
    → All (IsBookable staff now) ss
unfolding project_staff_day
project_staff_day-IsBookable zone staff now step date ss h =
    let (rs, h₁, h₂) = >>=-eq-ok (effective_work_ranges staff date) _ h in
    project_ranges-IsBookable zone staff now step date rs ss h₂

-- The minute of the date, in a zone ahead of UTC by the offset, has an instant of the slot.
abbrev pub Touches : ℕ → ℕ → ProjectedSlot → ℕ → Type 0
Touches offset date s m =
    (s.start_at + offset < days date + minutes (m + 1))
    × (days date + minutes m < s.end_at + offset)

-- Every minute that the slot touches lies in one of the ranges.
abbrev IsWithin : ℕ → ℕ → List LocalMinuteRange → ProjectedSlot → Type 0
IsWithin offset date rs s = (m : ℕ) → Touches offset date s m → covered m rs ≡ true

within_range :
    (staff : StaffScheduleDefinition) (now step offset date : ℕ) (r : LocalMinuteRange)
    (s : ProjectedSlot) (m : ℕ)
    → offset ≤ days date
    → FitsFrom
        (ahead_of_utc offset)
        staff
        now
        step
        (days date + minutes r.start - offset)
        (days date + minutes r.end - offset)
        s
    → Touches offset date s m
    → covers m r ≡ true
within_range staff now step offset date r s m h (built, offered, from, over) (early, late) =
    ground (arith, le→leb r.start m, lt→ltb m r.end)

-- In a zone ahead of UTC by a constant a projection of ranges always returns, and its slots lie in
-- the ranges.
project_ranges-IsWithin :
    (staff : StaffScheduleDefinition) (now step offset date : ℕ) (rs : List LocalMinuteRange)
    → offset ≤ days date
    → (ss : List ProjectedSlot) × (project_ranges (ahead_of_utc offset) staff now step date rs
        ≡ ok ss)
      × All (IsWithin offset date rs) ss
unfolding project_ranges
project_ranges-IsWithin staff now step offset date [] h = ([], refl, tt)
project_ranges-IsWithin staff now step offset date (r ∷ rs) h =
    let (rest, returned, within) = project_ranges-IsWithin staff now step offset date rs h in
    let first = days date + minutes r.start - offset in
    let last = days date + minutes r.end - offset in
    let zone = ahead_of_utc offset in
    (
      range_slots zone staff now step first last ++ rest,
      rw (resolve_boundary-ahead offset date r.start false h)
          (rw (resolve_boundary-ahead offset date r.end true h) (rw returned)),
      All-append (IsWithin offset date (r ∷ rs)) (range_slots zone staff now step first last) rest
          (All-map
            (λ s fits m touch. rw (within_range staff now step offset date r s m h fits touch))
            (range_slots zone staff now step first last)
            (range_slots-Fits zone staff now step first last))
          (All-map (λ s w m touch. ground (arith, w m touch)) rest within),
    )

-- For a well-formed schedule, in a zone ahead of UTC by a constant, the projection of a date always
-- returns, and every minute of the date that one of its slots touches is a working minute: no slot
-- reaches into a break, a day off or the time outside the working hours.
pub project_staff_day-is_working :
    (staff : StaffScheduleDefinition) (now step offset date : ℕ)
    → IsWellFormed staff
    → offset ≤ days date
    → (ss : List ProjectedSlot) × (project_staff_day (ahead_of_utc offset) staff now step date
        ≡ ok ss)
      × All (λ s. (m : ℕ) → Touches offset date s m → is_working staff date m ≡ true) ss
unfolding project_staff_day
project_staff_day-is_working staff now step offset date well h =
    let (rs, returned, valid, same) = effective_work_ranges-covers staff date well in
    let (ss, returned', within) = project_ranges-IsWithin staff now step offset date rs h in
    (ss, rw returned returned', All-map (λ s w m touch. sym (same m) ∙ w m touch) ss within)
