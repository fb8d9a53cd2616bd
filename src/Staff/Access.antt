-- ===== src/Staff/Access.antt =====
-- A revoked membership gives no access any more, and the business type follows the specialists.
use lanrouge_nails_bot.Base.{
  eq→==, ℕ, ◌≡◌, ◌≢◌, refl, true, false, ◌&&◌, Option, some, ◌==◌, arith, change-All, find,
  All-find, find-test, All, sym, ◌∙◌, inl, inr, Option-cases, subst,
}
use lanrouge_nails_bot.Errors.{ok}
use lanrouge_nails_bot.Time.{Datetime}
use lanrouge_nails_bot.Staff.Permissions.{StaffPermission}
use lanrouge_nails_bot.Staff.Rows.{
  get_by_id, get_by_telegram_id, is_live_member, StaffMember, User, Directory,
}
use lanrouge_nails_bot.Staff.Members.{revoke_member, revoked_member, authorize}
use lanrouge_nails_bot.Staff.Roles.{StaffContext}
use lanrouge_nails_bot.Staff.Rules.{context_of, live_context}
use lanrouge_nails_bot.Staff.Changes.{manage-cases, revoke_member-Updates}

-- Whoever a Telegram identity acts as is a live member.
authorize-live :
    (d : Directory) (business_id telegram_id : ℕ) (permission : Option StaffPermission)
    {context : StaffContext}
    → authorize d business_id telegram_id permission ≡ ok context
    → (m : StaffMember) × (u : User) × (find (is_live_member business_id u.id) d.members ≡ some m)
      × (context.staff_member_id ≡ m.id)
unfolding authorize live_context context_of get_by_telegram_id
authorize-live d business_id telegram_id permission h =
    elim (Option-cases (find (λ (u : User). u.telegram_id == telegram_id) d.users)) [
      | inl unknown ↦ ground arith
      | inr (u, known) ↦ elim (Option-cases (find (is_live_member business_id u.id) d.members)) [
        | inl dead ↦ ground arith
        | inr (m, live) ↦ (m, u, live, ground arith)
      ]
    ]

-- Rows with an identifier that are not active.
abbrev AreInactive : ℕ → Directory → Type 0
AreInactive staff_member_id d =
    All (λ m. m.id == staff_member_id ≡ true → m.is_active ≡ false) d.members

authorize-other :
    (d : Directory) (staff_member_id business_id telegram_id : ℕ)
    (permission : Option StaffPermission) {context : StaffContext}
    → AreInactive staff_member_id d
    → authorize d business_id telegram_id permission ≡ ok context
    → context.staff_member_id ≢ staff_member_id
authorize-other d staff_member_id business_id telegram_id permission inactive h =
    let (m, u, live, same) = authorize-live d business_id telegram_id permission h in
    let row = All-find _ (is_live_member business_id u.id) d.members inactive live in
    let test = find-test (is_live_member business_id u.id) d.members live in
    λ it. let gone = row (eq→== m.id staff_member_id (sym same ∙ it)) in ground (arith, gone, test)

member-id :
    (d : Directory) (business_id staff_member_id : ℕ) {m : StaffMember}
    → get_by_id d business_id staff_member_id ≡ some m
    → m.id ≡ staff_member_id
unfolding get_by_id
member-id d business_id staff_member_id found =
    let test =
      find-test (λ (m : StaffMember). m.id == staff_member_id && m.business_id == business_id)
        d.members found in
    ground (arith, test)

-- Once a membership was revoked, no Telegram identity acts as it in any business.
pub revoke_member-authorize :
    (d : Directory) (business_id telegram_id staff_member_id : ℕ) (now : Datetime) {d' : Directory}
    {m : StaffMember} (other_business_id another : ℕ) (permission : Option StaffPermission)
    {context : StaffContext}
    → revoke_member d business_id telegram_id staff_member_id now ≡ ok (d', m)
    → authorize d' other_business_id another permission ≡ ok context
    → context.staff_member_id ≢ staff_member_id
revoke_member-authorize d business_id telegram_id staff_member_id now {d'} other_business_id another
      permission {context} h acts =
    let (current, actor, target, managed, (members, _, _)) =
      revoke_member-Updates d business_id telegram_id staff_member_id now h in
    let found = (manage-cases d business_id telegram_id staff_member_id managed).1 in
    let same : target.id ≡ staff_member_id = member-id d actor.business_id staff_member_id found in
    let inactive : AreInactive target.id d' =
      subst (λ ms. All (λ (m : StaffMember). m.id == target.id ≡ true → m.is_active ≡ false) ms)
        (sym members)
        (change-All (λ (m : StaffMember). m.is_active ≡ false) (λ m. m.id == target.id)
          (revoked_member current) d.members (λ _. refl)) in
    subst (λ i. context.staff_member_id ≢ i) same
      (authorize-other d' target.id other_business_id another permission inactive acts)
