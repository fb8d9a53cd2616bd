-- ===== src/Projection/Day/Contract.antt =====
-- What a successful projection of a day promises, by every path through `project_day`.
use lanrouge_nails_bot.Base.{
  ℕ, ◌+◌, ◌/◌, ◌≤◌, ◌≡◌, refl, false, ◌&&◌, Option, some, List, All, All-sorted, AllPairs, length,
  sorted, sorted-IsSorted, ltb, arith,
}
use lanrouge_nails_bot.Enums.{BusinessType, business_type_enum, ◌is◌}
use lanrouge_nails_bot.Errors.{ok}
use lanrouge_nails_bot.Text.{Text}
use lanrouge_nails_bot.Time.{aware, days}
use lanrouge_nails_bot.Projection.Schedules.{StaffScheduleDefinition}
use lanrouge_nails_bot.Projection.Zones.{Zone}
use lanrouge_nails_bot.Projection.Slots.{ProjectedSlot}
use lanrouge_nails_bot.Projection.Day.{
  DayAvailabilityProjection, has_duplicates, slot_lt, require_requested, project_all,
  project_members, bookable_members, project_day,
}
use lanrouge_nails_bot.Projection.Day.Members.{
  IsOfferedBy, slot_lt_asymmetric, slot_lt_between, StartsBefore, slots-ordered,
  require_requested-IsProjected, project_all-IsOfferedBy, ids, bookable_members-Mem, solo_one,
}

-- What the projection of a day promises its caller.
pub record IsDayOf (schedules : List StaffScheduleDefinition) (requested : Option ℕ)
    (business_type : BusinessType) (horizon now local_now : ℕ) (day : DayAvailabilityProjection)
    : Type 0 where
  pub not_past : local_now / days 1 ≤ day.local_date
  pub in_horizon : day.local_date ≤ local_now / days 1 + horizon
  pub offered : All (IsOfferedBy schedules requested now) day.slots
  pub ordered : AllPairs StartsBefore day.slots
  pub unique_ids : has_duplicates day.eligible_staff_ids ≡ false
  pub solo : business_type ≡ BusinessType.solo → length day.eligible_staff_ids ≤ 1
  pub selection :
      day.show_master_selection
      ≡ (business_type is BusinessType.salon) && ltb 1 (length day.eligible_staff_ids)

-- What a returned day was built from.
members_parts :
    (business_type : BusinessType) (timezone : Text) (date now : ℕ) (zone : Zone)
    (eligible : List StaffScheduleDefinition) (requested : Option ℕ) (step : ℕ)
    (day : DayAvailabilityProjection)
    → project_members business_type timezone date now zone eligible requested step ≡ ok day
    → (projected : List StaffScheduleDefinition) × (slots : List ProjectedSlot) × (require_requested
          requested eligible
        ≡ ok projected)
      × (project_all zone now step date projected ≡ ok slots)
      × (has_duplicates (ids eligible) ≡ false)
      × ((business_type is BusinessType.solo) && ltb 1 (length eligible) ≡ false)
      × (day ≡ record {
        local_date = date;
        timezone = timezone;
        eligible_staff_ids = ids eligible;
        show_master_selection =
            (business_type is BusinessType.salon) && ltb 1 (length (ids eligible));
        slots = sorted (slot_lt projected) slots;
      })
unfolding project_members
members_parts business_type timezone date now zone eligible requested step day h = ground arith

module _ (zone_info : Text → Option Zone) (casefold : Text → Text) where
  day_parts :
      (business_type : BusinessType) (timezone : Text) (date now horizon : ℕ)
      (schedules : List StaffScheduleDefinition) (requested : Option ℕ) (step : ℕ) (zone : Zone)
      (day : DayAvailabilityProjection)
      → zone_info timezone ≡ some zone
      → project_day zone_info casefold business_type timezone date
          (aware now)
          horizon
          schedules
          requested
          step
        ≡ ok day
      → ((zone.to_local now).0 / days 1 ≤ date)
        × (date ≤ (zone.to_local now).0 / days 1 + horizon)
        × (project_members business_type timezone date now zone
              (bookable_members casefold schedules)
              requested
              step
            ≡ ok day)
  unfolding project_day
  day_parts business_type timezone date now horizon schedules requested step zone day known h =
      ground arith

  -- With an aware current time and a known timezone, a projection of a day that is returned is for
  -- the date asked for, which lies between today and the booking horizon; its slots are in the
  -- order of their starts, each bookable with an active and bookable member among the schedules
  -- passed in, the requested one if there is one; no two eligible members share an identifier, a
  -- solo business has at most one, and a choice of master is shown exactly in a salon with several.
  pub project_day-IsDayOf :
      (business_type : BusinessType) (timezone : Text) (date now horizon : ℕ)
      (schedules : List StaffScheduleDefinition) (requested : Option ℕ) (step : ℕ) (zone : Zone)
      (day : DayAvailabilityProjection)
      → zone_info timezone ≡ some zone
      → project_day zone_info casefold business_type timezone date
          (aware now)
          horizon
          schedules
          requested
          step
        ≡ ok day
      → (day.local_date ≡ date)
        × IsDayOf schedules requested business_type horizon now (zone.to_local now).0 day
  unfolding project_day
  project_day-IsDayOf business_type timezone date now horizon schedules requested step zone day
        known h =
      let (not_past, in_horizon, rest) =
        day_parts business_type timezone date now horizon schedules requested step zone day known
          h in
      let eligible = bookable_members casefold schedules in
      let (projected, ss, chosen, all, unique, one, built) =
        members_parts business_type timezone date now zone eligible requested step day rest in
      let members =
        require_requested-IsProjected schedules requested eligible projected
          (bookable_members-Mem casefold schedules) chosen in
      let offered =
        project_all-IsOfferedBy zone now step date schedules requested projected ss members all in
      rw built (
        refl,
        record {
          not_past = not_past;
          in_horizon = in_horizon;
          offered = All-sorted (slot_lt projected) (IsOfferedBy schedules requested now) ss offered;
          ordered = slots-ordered projected (sorted (slot_lt projected) ss) (
              sorted-IsSorted (slot_lt projected) (slot_lt_asymmetric projected)
                (slot_lt_between projected) ss);
          unique_ids = unique;
          solo = λ e. solo_one business_type eligible e one;
          selection = refl;
        },
      )
