-- ===== src/Projection/Day.antt =====
-- app/domain/schedule_projection.py: `AvailabilityProjector.project_day`. The timezone database
-- and Unicode case folding are parameters. Sort orders are naturals.
use lanrouge_nails_bot.Base.{
  ℕ, ◌+◌, ◌/◌, Bool, true, false, not, ◌&&◌, ◌||◌, Option, none, some, List, [], ◌∷◌, ◌++◌, map,
  any, select, length, sorted, lex_lt, ltb, leb, ◌==◌, if◌then◌else◌,
}
use lanrouge_nails_bot.Enums.{BusinessType, business_type_enum, ◌is◌}
use lanrouge_nails_bot.Errors.{Result, ok, err, window_validation, ◌>>=◌, ◌>>◌, raise_if}
use lanrouge_nails_bot.Text.{Text}
use lanrouge_nails_bot.Time.{Datetime, naive, aware, days}
use lanrouge_nails_bot.Projection.Schedules.{StaffScheduleDefinition}
use lanrouge_nails_bot.Projection.Zones.{Zone}
use lanrouge_nails_bot.Projection.Slots.{ProjectedSlot, project_staff_day}
pub mod Members
pub mod Contract

pub record DayAvailabilityProjection : Type 0 where
  pub local_date : ℕ
  pub timezone : Text
  pub eligible_staff_ids : List ℕ
  pub show_master_selection : Bool
  pub slots : List ProjectedSlot

-- `len(ids) != len(set(ids))`
unfoldable pub has_duplicates : List ℕ → Bool
has_duplicates [] = false
has_duplicates (i ∷ ids) = any (λ j. i == j) ids || has_duplicates ids

require_aware_now : Datetime → Result ℕ
require_aware_now (aware t) = ok t
require_aware_now (naive _) = err window_validation

require_zone : Option Zone → Result Zone
require_zone (some zone) = ok zone
require_zone none = err window_validation

-- `staff_order[...]`, whose keys are the members projected: the owner of a slot is one of them.
abbrev pub staff_order : List StaffScheduleDefinition → ℕ → ℕ
staff_order [] id = 0
staff_order (staff ∷ projected) id =
    if staff.staff_member_id == id then staff.sort_order else staff_order projected id

abbrev pub slot_key : List StaffScheduleDefinition → ProjectedSlot → List ℕ
slot_key projected slot =
    slot.start_at
    ∷ staff_order projected slot.staff_member_id
    ∷ slot.staff_member_id
    ∷ slot.end_at
    ∷ []

abbrev pub slot_lt : List StaffScheduleDefinition → ProjectedSlot → ProjectedSlot → Bool
slot_lt projected a b = lex_lt (slot_key projected a) (slot_key projected b)

-- The members that a request for one of them, or for any, projects.
pub require_requested :
    Option ℕ → List StaffScheduleDefinition → Result (List StaffScheduleDefinition)
require_requested none eligible = ok eligible
require_requested (some id) eligible = do
  let projected = select (λ staff. staff.staff_member_id == id) eligible
  raise_if (length projected == 0) window_validation
  ok projected

-- The slots of each member, one after the other.
unfoldable pub project_all :
    Zone → ℕ → ℕ → ℕ → List StaffScheduleDefinition → Result (List ProjectedSlot)
project_all zone now step local_date [] = ok []
project_all zone now step local_date (staff ∷ projected) = do
  own ← project_staff_day zone staff now step local_date
  rest ← project_all zone now step local_date projected
  ok (own ++ rest)

-- `(sort_order, display_name.casefold(), staff_member_id)`
abbrev pub staff_lt : (Text → Text) → StaffScheduleDefinition → StaffScheduleDefinition → Bool
staff_lt casefold a b =
    ltb a.sort_order b.sort_order
    || (a.sort_order == b.sort_order
        && (lex_lt (casefold a.display_name) (casefold b.display_name)
            || (not (lex_lt (casefold b.display_name) (casefold a.display_name))
                && ltb a.staff_member_id b.staff_member_id)))

-- The rest of `project_day`, from the sorted members that can be booked.
unfoldable pub project_members :
    BusinessType
    → Text
    → ℕ
    → ℕ
    → Zone
    → List StaffScheduleDefinition
    → Option ℕ
    → ℕ
    → Result DayAvailabilityProjection
unfolding require_requested
project_members business_type timezone local_date now zone eligible requested_staff_id
      slot_step_minutes =
    do
      let eligible_ids = map (λ staff. staff.staff_member_id) eligible
      raise_if (has_duplicates eligible_ids) window_validation
      raise_if ((business_type is BusinessType.solo) && ltb 1 (length eligible)) window_validation
      projected ← require_requested requested_staff_id eligible
      slots ← project_all zone now slot_step_minutes local_date projected
      ok (record {
        local_date = local_date;
        timezone = timezone;
        eligible_staff_ids = eligible_ids;
        show_master_selection =
            (business_type is BusinessType.salon) && ltb 1 (length eligible_ids);
        slots = sorted (slot_lt projected) slots;
      })

-- `sorted(staff for staff in staff_schedules if staff.is_active and staff.is_bookable)`
abbrev pub bookable_members :
    (Text → Text) → List StaffScheduleDefinition → List StaffScheduleDefinition
bookable_members casefold staff_schedules =
    sorted (staff_lt casefold)
      (select (λ staff. staff.is_active && staff.is_bookable) staff_schedules)

module _ (zone_info : Text → Option Zone) (casefold : Text → Text) where
  unfoldable pub project_day :
      BusinessType
      → Text
      → ℕ
      → Datetime
      → ℕ
      → List StaffScheduleDefinition
      → Option ℕ
      → ℕ
      → Result DayAvailabilityProjection
  unfolding require_aware_now require_zone
  project_day business_type timezone local_date now booking_horizon_days staff_schedules
        requested_staff_id slot_step_minutes =
      do
        current_time ← require_aware_now now
        raise_if (not (leb 1 booking_horizon_days && leb booking_horizon_days 365))
            window_validation
        raise_if (not (leb 1 slot_step_minutes && leb slot_step_minutes 1440)) window_validation
        zone ← require_zone (zone_info timezone)
        let today = (zone.to_local current_time).0 / days 1
        raise_if (not (leb today local_date && leb local_date (today + booking_horizon_days)))
            window_validation
        project_members business_type timezone local_date current_time zone
            (bookable_members casefold staff_schedules) requested_staff_id slot_step_minutes
