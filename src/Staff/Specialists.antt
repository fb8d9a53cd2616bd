-- ===== src/Staff/Specialists.antt =====
-- app/repositories/staff_repository.py, `sync_business_type`: the type that it derives, against the
-- members of the business that clients can book.
use lanrouge_nails_bot.Base.{
  ltb, suc, Bool-cases, ◌⊎◌, ◌≤◌, ◌↔◌, none, count, true, List, [], ℕ, ◌≡◌, arith, ◌∷◌, inl, inr,
}
use lanrouge_nails_bot.Staff.Rows.{is_specialist, derived_type, StaffMember, Directory}
use lanrouge_nails_bot.Enums.{BusinessType, staff_role_enum}

-- An active member of the business that clients can book.
abbrev pub IsBookable : ℕ → StaffMember → Type 0
IsBookable business_id m =
    (m.business_id ≡ business_id)
    × (m.is_active ≡ true)
    × (m.is_bookable ≡ true)
    × (m.archived_at ≡ none)

-- A row of the table that satisfies `P`, and two rows in different places that do.
abbrev HasOne : (StaffMember → Type 0) → List StaffMember → Type 0
HasOne P [] = ⊥
HasOne P (m ∷ ms) = P m ⊎ HasOne P ms

abbrev pub HasTwo : (StaffMember → Type 0) → List StaffMember → Type 0
HasTwo P [] = ⊥
HasTwo P (m ∷ ms) = (P m × HasOne P ms) ⊎ HasTwo P ms

is_specialist-IsBookable :
    (business_id : ℕ) (m : StaffMember)
    → is_specialist business_id m ≡ true
    → IsBookable business_id m
unfolding is_specialist
is_specialist-IsBookable business_id m h = ground arith

IsBookable-is_specialist :
    (business_id : ℕ) (m : StaffMember)
    → IsBookable business_id m
    → is_specialist business_id m ≡ true
unfolding is_specialist
IsBookable-is_specialist business_id m h = ground arith

-- The specialists that are counted, as rows of the table.
module _ (business_id : ℕ) where
  abbrev specialists : List StaffMember → ℕ
  specialists = count (is_specialist business_id)

  HasOne-counted : (ms : List StaffMember) → 1 ≤ specialists ms → HasOne (IsBookable business_id) ms
  HasOne-counted [] h = ground arith
  HasOne-counted (m ∷ ms) h = elim (Bool-cases (is_specialist business_id m)) [
    | inl here ↦ inl (is_specialist-IsBookable business_id m here)
    | inr other ↦ inr (HasOne-counted ms (rw other at h))
  ]

  HasTwo-counted : (ms : List StaffMember) → 2 ≤ specialists ms → HasTwo (IsBookable business_id) ms
  HasTwo-counted [] h = ground arith
  HasTwo-counted (m ∷ ms) h = elim (Bool-cases (is_specialist business_id m)) [
    | inl here ↦
        let more : 2 ≤ suc (specialists ms) = rw here at h in
        inl (is_specialist-IsBookable business_id m here, HasOne-counted ms (omega arith))
    | inr other ↦ inr (HasTwo-counted ms (rw other at h))
  ]

  counted-HasOne : (ms : List StaffMember) → HasOne (IsBookable business_id) ms → 1 ≤ specialists ms
  counted-HasOne [] none_there = elim none_there [ ]
  counted-HasOne (m ∷ ms) (inl here) = ground (arith, IsBookable-is_specialist business_id m here)
  counted-HasOne (m ∷ ms) (inr there) = ground (arith, counted-HasOne ms there)

  counted-HasTwo : (ms : List StaffMember) → HasTwo (IsBookable business_id) ms → 2 ≤ specialists ms
  counted-HasTwo [] none_there = elim none_there [ ]
  counted-HasTwo (m ∷ ms) (inl (here, there)) =
      ground (arith, IsBookable-is_specialist business_id m here, counted-HasOne ms there)
  counted-HasTwo (m ∷ ms) (inr there) = ground (arith, counted-HasTwo ms there)

  pub derived_type-salon :
      (d : Directory)
      → (derived_type d business_id ≡ BusinessType.salon)
        ↔ HasTwo (IsBookable business_id) d.members
  unfolding derived_type
  derived_type-salon d = (
    (λ salon. HasTwo-counted d.members (ground arith)),
    (λ two. ground (arith, counted-HasTwo d.members two)),
  )

  pub derived_type-solo :
      (d : Directory)
      → (derived_type d business_id ≡ BusinessType.solo)
        ↔ ¬ HasTwo (IsBookable business_id) d.members
  unfolding derived_type
  derived_type-solo d = (
    (λ solo two. ground (arith, counted-HasTwo d.members two)),
    (λ few. elim (Bool-cases (ltb 1 (specialists d.members))) [
      | inl many ↦ elim (few (HasTwo-counted d.members (ground arith))) [ ]
      | inr less ↦ ground arith
    ]),
  )
