-- ===== src/Projection/Day/Members.antt =====
-- The members of the staff that a day projects, the order of their slots, and that each slot is
-- one that its owner may be booked for.
use mathlib.Core.List.{Memᴰ}
use lanrouge_nails_bot.Base.{
  ℕ, suc, ap, ◌≤◌, ◌≡◌, refl, true, false, ◌&&◌, Option, none, some, List, [], ◌∷◌, map, All,
  All-append, All-map, All-select_test, All-sorted, AllPairs, select, length, NotBefore,
  lex_lt_asymmetric, lex_lt_between, lex_lt-head, ltb, arith, ◌==◌,
}
use lanrouge_nails_bot.Enums.{BusinessType, business_type_enum, ◌is◌}
use lanrouge_nails_bot.Errors.{ok, ok-injective, >>=-eq-ok}
use lanrouge_nails_bot.Text.{Text}
use lanrouge_nails_bot.Projection.Schedules.{StaffScheduleDefinition}
use lanrouge_nails_bot.Projection.Zones.{Zone}
use lanrouge_nails_bot.Projection.Slots.{ProjectedSlot, project_staff_day}
use lanrouge_nails_bot.Projection.Slots.Working.{IsBookable, project_staff_day-IsBookable}
use lanrouge_nails_bot.Projection.Day.{
  slot_lt, slot_key, staff_order, staff_lt, require_requested, project_all, bookable_members,
}

-- One of the schedules passed in, open for booking, and the one asked for if one was.
abbrev pub IsProjected : List StaffScheduleDefinition → Option ℕ → StaffScheduleDefinition → Type 0
IsProjected schedules requested staff =
    Memᴰ staff schedules
    × (staff.is_active ≡ true)
    × (staff.is_bookable ≡ true)
    × ((id : ℕ) → requested ≡ some id → staff.staff_member_id ≡ id)

-- A slot that a projected member may be booked for.
abbrev pub IsOfferedBy : List StaffScheduleDefinition → Option ℕ → ℕ → ProjectedSlot → Type 0
IsOfferedBy schedules requested now s =
    (staff : StaffScheduleDefinition) × IsProjected schedules requested staff
    × IsBookable staff now s

all-Mem : (xs : List StaffScheduleDefinition) → All (λ x. Memᴰ x xs) xs
all-Mem [] = tt
all-Mem (x ∷ xs) = (Memᴰ.head refl, All-map (λ y m. Memᴰ.tail m) xs (all-Mem xs))

pub slot_lt_asymmetric :
    (ps : List StaffScheduleDefinition) (a b : ProjectedSlot)
    → slot_lt ps a b ≡ true
    → slot_lt ps b a ≡ false
slot_lt_asymmetric ps a b = lex_lt_asymmetric (slot_key ps a) (slot_key ps b)

pub slot_lt_between :
    (ps : List StaffScheduleDefinition) (a b c : ProjectedSlot)
    → slot_lt ps b a ≡ false
    → slot_lt ps c b ≡ false
    → slot_lt ps c a ≡ false
slot_lt_between ps a b c = lex_lt_between (slot_key ps a) (slot_key ps b) (slot_key ps c)

-- The slots in the order in which they are listed.
abbrev pub StartsBefore : ProjectedSlot → ProjectedSlot → Type 0
StartsBefore a b = a.start_at ≤ b.start_at

abbrev tail_key : List StaffScheduleDefinition → ProjectedSlot → List ℕ
tail_key ps s = staff_order ps s.staff_member_id ∷ s.staff_member_id ∷ s.end_at ∷ []

pub slots-ordered :
    (ps : List StaffScheduleDefinition) (ss : List ProjectedSlot)
    → AllPairs (NotBefore (slot_lt ps) (slot_lt_asymmetric ps) (slot_lt_between ps)) ss
    → AllPairs StartsBefore ss
slots-ordered ps [] h = tt
slots-ordered ps (s ∷ ss) h = (
  All-map (λ t later. lex_lt-head s.start_at t.start_at (tail_key ps s) (tail_key ps t) later) ss
      h.0,
  slots-ordered ps ss h.1,
)

requested_id :
    (s : StaffScheduleDefinition) (id j : ℕ)
    → s.staff_member_id == id ≡ true
    → some id ≡ some j
    → s.staff_member_id ≡ j
requested_id s id j h same = ground arith

pub require_requested-IsProjected :
    (schedules : List StaffScheduleDefinition) (requested : Option ℕ)
    (eligible projected : List StaffScheduleDefinition)
    → All (λ s. Memᴰ s schedules × (s.is_active && s.is_bookable ≡ true)) eligible
    → require_requested requested eligible ≡ ok projected
    → All (IsProjected schedules requested) projected
unfolding require_requested
require_requested-IsProjected schedules none eligible projected h r =
    rw (← ok-injective r)
      (All-map (λ s p. (p.0, ground arith, ground arith, λ id e. cc)) eligible h)
require_requested-IsProjected schedules (some id) eligible projected h r =
    let e : projected ≡ select (λ s. s.staff_member_id == id) eligible = ground arith in
    rw e (
      All-map (λ s p. (p.0.0, ground arith, ground arith, λ j same. requested_id s id j p.1 same))
        (select (λ s. s.staff_member_id == id) eligible)
        (All-select_test (λ s. Memᴰ s schedules × (s.is_active && s.is_bookable ≡ true))
          (λ s. s.staff_member_id == id) eligible h))

pub project_all-IsOfferedBy :
    (zone : Zone) (now step date : ℕ) (schedules : List StaffScheduleDefinition)
    (requested : Option ℕ) (projected : List StaffScheduleDefinition) (ss : List ProjectedSlot)
    → All (IsProjected schedules requested) projected
    → project_all zone now step date projected ≡ ok ss
    → All (IsOfferedBy schedules requested now) ss
unfolding project_all
project_all-IsOfferedBy zone now step date schedules requested [] ss p h = rw (← ok-injective h) tt
project_all-IsOfferedBy zone now step date schedules requested (staff ∷ projected) ss p h =
    let (own, h₁, h₂) = >>=-eq-ok (project_staff_day zone staff now step date) _ h in
    let (rest, h₃, h₄) = >>=-eq-ok (project_all zone now step date projected) _ h₂ in
    rw (← ok-injective h₄) (
      All-append (IsOfferedBy schedules requested now) own rest
        (All-map (λ s b. (staff, p.0, b)) own
          (project_staff_day-IsBookable zone staff now step date own h₁))
        (project_all-IsOfferedBy zone now step date schedules requested projected rest p.1 h₃))

abbrev pub ids : List StaffScheduleDefinition → List ℕ
ids eligible = map (λ staff. staff.staff_member_id) eligible

pub bookable_members-Mem :
    (casefold : Text → Text) (schedules : List StaffScheduleDefinition)
    → All
        (λ s. Memᴰ s schedules × (s.is_active && s.is_bookable ≡ true))
        (bookable_members casefold schedules)
bookable_members-Mem casefold schedules =
    All-sorted (staff_lt casefold) _
      (select (λ staff. staff.is_active && staff.is_bookable) schedules)
      (All-select_test (λ s. Memᴰ s schedules) (λ staff. staff.is_active && staff.is_bookable)
        schedules (all-Mem schedules))

length-ids : (eligible : List StaffScheduleDefinition) → length (ids eligible) ≡ length eligible
length-ids [] = refl
length-ids (s ∷ eligible) = ap suc (length-ids eligible)

pub solo_one :
    (business_type : BusinessType) (eligible : List StaffScheduleDefinition)
    → business_type ≡ BusinessType.solo
    → (business_type is BusinessType.solo) && ltb 1 (length eligible) ≡ false
    → length (ids eligible) ≤ 1
solo_one business_type eligible e h = rw (length-ids eligible) (ground arith)
