-- ===== src/Staff/Derived.antt =====
-- The business type follows the number of specialists after every method that may change it.
use lanrouge_nails_bot.Base.{
  ◌↔◌, [], ℕ, ◌≡◌, refl, Bool, not, ◌&&◌, ◌||◌, some, ◌==◌, arith, change, find, find-test,
  find-change, sym, ◌∷◌, inl, inr, Option-cases, subst,
}
use lanrouge_nails_bot.Errors.{
  authorization, entity_not_found, raise_if, ◌>>◌, Result, ok, >>=-eq-ok, ok-injective,
}
use lanrouge_nails_bot.Time.{require_aware, Datetime}
use lanrouge_nails_bot.Staff.Permissions.{StaffPermission}
use lanrouge_nails_bot.Staff.Rows.{
  update_invitation, get_by_user_id, get_or_create_user, is_none, get_by_id, update_member,
  is_live_member, StaffInvitation, get_by_telegram_id, add_event, StaffEvent, sync_business_type,
  derived_type, Business, StaffMember, User, Directory,
}
use lanrouge_nails_bot.Staff.Members.{
  with_bookable, found_member, with_role, manage, set_staff_bookable, change_member_role,
  revoke_member, revoked_member,
}
use lanrouge_nails_bot.Staff.Rules.{
  require_permission, require_assignable_role, context_of, live_context,
}
use lanrouge_nails_bot.Enums.{BusinessType, staff_role_enum, contains, StaffRole}
use lanrouge_nails_bot.Staff.Invitations.{invited_member, is_known, bind_invitation}
use lanrouge_nails_bot.Staff.Roles.{StaffContext}
use lanrouge_nails_bot.Staff.Specialists.{IsBookable, HasTwo, derived_type-salon, derived_type-solo}
use lanrouge_nails_bot.Staff.Changes.{manage-cases}
use lanrouge_nails_bot.Staff.Accepted.{used_by}

-- The business is there, and is a salon exactly where more than one member can be booked; otherwise
-- it is a solo business.
unfoldable pub IsDerived : Directory → ℕ → Type 0
IsDerived d business_id =
    (b : Business) × (find (λ row. row.id == business_id) d.businesses ≡ some b)
    × ((b.business_type ≡ BusinessType.salon) ↔ HasTwo (IsBookable business_id) d.members)
    × ((b.business_type ≡ BusinessType.solo) ↔ ¬ HasTwo (IsBookable business_id) d.members)

sync_business_type-IsDerived :
    (d d' : Directory) (business_id : ℕ)
    → sync_business_type d business_id ≡ ok d'
    → IsDerived d' business_id
unfolding sync_business_type IsDerived derived_type
sync_business_type-IsDerived d d' business_id h =
    elim (Option-cases (find (λ (b : Business). b.id == business_id) d.businesses)) [
      | inl unknown ↦ ground arith
      | inr (b, known) ↦
          let test = find-test (λ (row : Business). row.id == business_id) d.businesses known in
          let end : d' ≡ record d {
            businesses =
                change (λ row. row.id == business_id)
                  (λ row. record row { business_type = derived_type d business_id }) d.businesses;
          } =
            ground arith in
          subst (λ t. IsDerived t business_id) (sym end)
            (
              record b { business_type = derived_type d business_id },
              find-change (λ row. row.id == business_id) (λ row. row.id == business_id)
                  (λ row. record row { business_type = derived_type d business_id }) d.businesses
                  (λ _. refl) known test,
              derived_type-salon business_id d,
              derived_type-solo business_id d,
            )
    ]

-- The end of every method that counts the specialists again.
synced-IsDerived :
    (changed synced : Directory) (business_id : ℕ) (event : StaffEvent) (m : StaffMember)
    {d' : Directory} {m' : StaffMember}
    → sync_business_type changed business_id ≡ ok synced
    → ◌≡◌ {A = Result (Directory × StaffMember)} (ok (add_event event synced, m)) (ok (d', m'))
    → IsDerived d' business_id
unfolding IsDerived derived_type
synced-IsDerived changed synced business_id event m syncs h =
    subst (λ (x : Directory × StaffMember). IsDerived x.0 business_id) (ok-injective h)
      (sync_business_type-IsDerived changed synced business_id syncs)

live_context-business :
    (d : Directory) (business_id telegram_id : ℕ) {actor : StaffContext}
    → live_context d business_id telegram_id ≡ ok actor
    → actor.business_id ≡ business_id
unfolding live_context context_of get_by_telegram_id
live_context-business d business_id telegram_id h =
    elim (Option-cases (find (λ (u : User). u.telegram_id == telegram_id) d.users)) [
      | inl unknown ↦ ground arith
      | inr (u, known) ↦ elim (Option-cases (find (is_live_member business_id u.id) d.members)) [
        | inl dead ↦ ground arith
        | inr (m, live) ↦
            let test = find-test (is_live_member business_id u.id) d.members live in
            let own : m.business_id ≡ business_id = ground (arith, test) in ground (arith, own)
      ]
    ]

-- A method that changes who can be booked.
pub data Changes (business_id : ℕ) : Directory → Directory → Type 0 where
  revoking :
      (d d' : Directory) (telegram_id staff_member_id : ℕ) (now : Datetime) (m : StaffMember)
      → revoke_member d business_id telegram_id staff_member_id now ≡ ok (d', m)
      → Changes business_id d d'
  changing_role :
      (d d' : Directory) (telegram_id staff_member_id : ℕ) (role : StaffRole) (m : StaffMember)
      → change_member_role d business_id telegram_id staff_member_id role ≡ ok (d', m)
      → Changes business_id d d'
  setting_bookable :
      (d d' : Directory) (telegram_id staff_member_id : ℕ) (enabled : Bool) (m : StaffMember)
      → set_staff_bookable d business_id telegram_id staff_member_id enabled ≡ ok (d', m)
      → Changes business_id d d'
  binding :
      (d d' : Directory) (i : StaffInvitation) (telegram_id new_user_id new_member_id current : ℕ)
      (m : StaffMember)
      → i.business_id ≡ business_id
      → bind_invitation d i telegram_id new_user_id new_member_id current ≡ ok (d', m)
      → Changes business_id d d'

-- After a membership was revoked, got another role, became bookable or not, or was added by an
-- invitation, the business is there; it is a salon exactly where at least two of its members are
-- active, bookable and not archived, and a solo business otherwise.
pub Changes-IsDerived :
    (business_id : ℕ) (d d' : Directory) → Changes business_id d d' → IsDerived d' business_id
unfolding revoke_member change_member_role set_staff_bookable bind_invitation
Changes-IsDerived b d d' (revoking _ _ t id now m h) =
    let (current, _, h1) = >>=-eq-ok (require_aware now) _ h in
    let ((actor, target), managed, h2) = >>=-eq-ok (manage d b t id) _ h1 in
    let own = live_context-business d b t (manage-cases d b t id managed).0 in
    let changed = update_member target.id (revoked_member current) d in
    let (synced, syncs, h3) = >>=-eq-ok (sync_business_type changed actor.business_id) _ h2 in
    subst (IsDerived d') own (synced-IsDerived changed synced actor.business_id _ _ syncs h3)
Changes-IsDerived b d d' (changing_role _ _ t id role m h) =
    let ((actor, target), managed, h1) = >>=-eq-ok (manage d b t id) _ h in
    let own = live_context-business d b t (manage-cases d b t id managed).0 in
    let changed = update_member target.id (with_role role) d in
    let (synced, checks, h2) =
      >>=-eq-ok (require_assignable_role actor role >> sync_business_type changed actor.business_id)
        _ h1 in
    let (_, _, syncs) = >>=-eq-ok (require_assignable_role actor role) _ checks in
    subst (IsDerived d') own (synced-IsDerived changed synced actor.business_id _ _ syncs h2)
Changes-IsDerived b d d' (setting_bookable _ _ t id enabled m h) =
    let (actor, live, h1) = >>=-eq-ok (live_context d b t) _ h in
    let own = live_context-business d b t live in
    let (member, _, h2) =
      >>=-eq-ok
        (require_permission actor (some StaffPermission.manage_staff)
          >> found_member (get_by_id d actor.business_id id))
        _ h1 in
    let checks =
      raise_if (not member.is_active || not (is_none member.archived_at)) entity_not_found
      >> raise_if (enabled && not (contains member.role (StaffRole.owner ∷ StaffRole.master ∷ [])))
          authorization in
    let changed = update_member member.id (with_bookable enabled) d in
    let (synced, passes, h3) =
      >>=-eq-ok (checks >> sync_business_type changed actor.business_id) _ h2 in
    let (_, _, syncs) = >>=-eq-ok checks _ passes in
    subst (IsDerived d') own (synced-IsDerived changed synced actor.business_id _ _ syncs h3)
Changes-IsDerived b d d' (binding _ _ i t new_user_id new_member_id current m own h) =
    let with_user = (get_or_create_user d t new_user_id).0 in
    let user_id = (get_or_create_user d t new_user_id).1.id in
    let unknown =
      raise_if (is_known (get_by_user_id with_user i.business_id user_id)) authorization in
    let (_, _, h1) = >>=-eq-ok unknown _ h in
    let member = invited_member i user_id new_member_id in
    let bound : Directory =
      update_invitation i.id (used_by user_id current)
        (record with_user { members = member ∷ with_user.members }) in
    let (synced, syncs, h2) = >>=-eq-ok (sync_business_type bound i.business_id) _ h1 in
    subst (IsDerived d') own (synced-IsDerived bound synced i.business_id _ _ syncs h2)
