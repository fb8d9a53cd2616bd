-- ===== src/Projection/Slots/Offers.antt =====
-- Which slots one working range gives: every one that is offered, and no other.
use mathlib.Core.List.{Memᴰ}
use lanrouge_nails_bot.Base.{
  ℕ, zero, suc, ◌+◌, ◌*◌, ◌-◌, ◌≤◌, ◌<◌, ◌≡◌, refl, Bool, true, false, List, ◌∷◌, All, leb, le→leb,
  leb→le, arith, Bool-cases, inl, inr, if◌then◌else◌,
}
use lanrouge_nails_bot.Time.{minutes}
use lanrouge_nails_bot.Projection.Schedules.{StaffScheduleDefinition}
use lanrouge_nails_bot.Projection.Zones.{Zone}
use lanrouge_nails_bot.Projection.Slots.{
  ProjectedSlot, is_offered, slot_at, scan_slots, range_slots,
}

weaken_slot :
    {s : ProjectedSlot} {ss : List ProjectedSlot} (t : ProjectedSlot) (b : Bool)
    → Memᴰ s ss
    → Memᴰ s (if b then t ∷ ss else ss)
weaken_slot t true m = Memᴰ.tail m
weaken_slot t false m = m

module _ (zone : Zone) (staff : StaffScheduleDefinition) (now slot_step_minutes : ℕ) where
  abbrev slots : ℕ → ℕ → ℕ → List ProjectedSlot
  slots = scan_slots zone staff now slot_step_minutes

  -- A slot of the range: offered, from the cursor on, and over before the range ends.
  abbrev pub FitsFrom : ℕ → ℕ → ProjectedSlot → Type 0
  FitsFrom cursor range_end s =
      (s ≡ slot_at zone staff s.start_at)
      × (is_offered staff now s.start_at ≡ true)
      × (cursor ≤ s.start_at)
      × (s.end_at ≤ range_end)

  scan_slots-Fits :
      (fuel range_end cursor from : ℕ)
      → from ≤ cursor
      → All (FitsFrom from range_end) (slots fuel range_end cursor)
  unfolding scan_slots
  scan_slots-Fits zero range_end cursor from h = tt
  scan_slots-Fits (suc fuel) range_end cursor from h =
      let rest =
        scan_slots-Fits fuel range_end (cursor + minutes slot_step_minutes) from (omega arith) in
      elim (Bool-cases (leb (cursor + minutes staff.duration_minutes) range_end)) [
        | inl fits ↦ elim (Bool-cases (is_offered staff now cursor)) [
          | inl offered ↦ rw fits (rw offered ((refl, offered, h, leb→le _ _ fits), rest))
          | inr refused ↦ rw fits (rw refused rest)
        ]
        | inr over ↦ rw over tt
      ]

  -- The cursor after `k` rounds.
  abbrev pub round : ℕ → ℕ → ℕ
  round cursor k = cursor + k * minutes slot_step_minutes

  scan_slots-complete :
      (fuel range_end cursor k : ℕ)
      → k < fuel
      → round cursor k + minutes staff.duration_minutes ≤ range_end
      → is_offered staff now (round cursor k) ≡ true
      → Memᴰ (slot_at zone staff (round cursor k)) (slots fuel range_end cursor)
  unfolding scan_slots
  scan_slots-complete zero range_end cursor k h fits offered = elim h [ ]
  scan_slots-complete (suc fuel) range_end cursor zero h fits offered =
      let here : round cursor 0 ≡ cursor = omega arith in
      let room : leb (cursor + minutes staff.duration_minutes) range_end ≡ true =
        le→leb _ _ (omega arith) in
      let now_offered : is_offered staff now cursor ≡ true = rw here at offered in
      rw here (rw room (rw now_offered (Memᴰ.head refl)))
  scan_slots-complete (suc fuel) range_end cursor (suc k) h fits offered =
      let next : round cursor (suc k) ≡ round (cursor + minutes slot_step_minutes) k =
        omega arith in
      let room : leb (cursor + minutes staff.duration_minutes) range_end ≡ true =
        le→leb _ _ (omega arith) in
      let later =
        scan_slots-complete fuel range_end (cursor + minutes slot_step_minutes) k (omega arith)
          (omega arith) (rw next at offered) in
      rw next
        (rw room (weaken_slot (slot_at zone staff cursor) (is_offered staff now cursor) later))

  -- The slots of a range are offered, begin and end within it, and are what `slot_at` builds.
  pub range_slots-Fits :
      (range_start range_end : ℕ)
      → All
          (FitsFrom range_start range_end)
          (range_slots zone staff now slot_step_minutes range_start range_end)
  unfolding range_slots
  range_slots-Fits range_start range_end =
      scan_slots-Fits (suc (range_end - range_start)) range_end range_start range_start
        (omega arith)

  -- With a step of at least a minute, the loop of a range ends by its own test: it
  -- gives a slot for every round whose slot is over before the range ends and is offered.
  pub range_slots-complete :
      (range_start range_end k : ℕ)
      → 1 ≤ slot_step_minutes
      → round range_start k + minutes staff.duration_minutes ≤ range_end
      → is_offered staff now (round range_start k) ≡ true
      → Memᴰ
          (slot_at zone staff (round range_start k))
          (range_slots zone staff now slot_step_minutes range_start range_end)
  unfolding range_slots
  range_slots-complete range_start range_end k step fits offered =
      scan_slots-complete (suc (range_end - range_start)) range_end range_start k (grind arith) fits
        offered
