-- ===== src/Staff/Changes.antt =====
-- What each method that returned did to the members and invitations.
use lanrouge_nails_bot.Base.{[], ◌&&◌, ◌∷◌, ℕ, ◌≡◌, Bool, not, ◌||◌, some, ◌==◌, arith, change}
use lanrouge_nails_bot.Enums.{StaffRole, staff_role_enum, ◌is◌, contains}
use lanrouge_nails_bot.Errors.{entity_not_found, authorization, ◌>>◌, raise_if, ok, >>=-eq-ok}
use lanrouge_nails_bot.Time.{require_aware, Datetime}
use lanrouge_nails_bot.Staff.Permissions.{StaffPermission, staff_permission_enum}
use lanrouge_nails_bot.Staff.Roles.{grantable_staff_permissions, StaffContext}
use lanrouge_nails_bot.Staff.Rows.{
  is_none, StaffInvitation, update_member, get_by_id, sync_business_type, StaffMember, Directory,
}
use lanrouge_nails_bot.Staff.Members.{
  found_member, with_role, with_grant, with_bookable, set_staff_bookable, set_permission_grant,
  revoked_member, change_member_role, revoke_member, manage,
}
use lanrouge_nails_bot.Staff.Rules.{
  require_permission, require_assignable_role, require_manageable_target, live_context,
}
use lanrouge_nails_bot.Staff.Invitations.{StaffInvitationCreate, issue_invitation}
use lanrouge_nails_bot.Text.{Text}

-- The members of one directory are those of another with one row updated, and the invitations and
-- users are the same.
abbrev pub Updates : Directory → ℕ → (StaffMember → StaffMember) → Directory → Type 0
Updates d staff_member_id f d' =
    (d'.members ≡ change (λ m. m.id == staff_member_id) f d.members)
    × (d'.invitations ≡ d.invitations)
    × (d'.users ≡ d.users)

-- Deriving the business type changes no member, invitation or user.
pub sync_business_type-rows :
    (d d' : Directory) (business_id : ℕ)
    → sync_business_type d business_id ≡ ok d'
    → (d'.members ≡ d.members) × (d'.invitations ≡ d.invitations) × (d'.users ≡ d.users)
unfolding sync_business_type
sync_business_type-rows d d' business_id h = ground arith

pub manage-cases :
    (d : Directory) (business_id telegram_id staff_member_id : ℕ) {actor : StaffContext}
    {target : StaffMember}
    → manage d business_id telegram_id staff_member_id ≡ ok (actor, target)
    → (live_context d business_id telegram_id ≡ ok actor)
      × (get_by_id d actor.business_id staff_member_id ≡ some target)
      × (require_manageable_target actor target ≡ ok tt)
unfolding manage
manage-cases d business_id telegram_id staff_member_id h = ground arith

pub revoke_member-Updates :
    (d : Directory) (business_id telegram_id staff_member_id : ℕ) (now : Datetime) {d' : Directory}
    {m : StaffMember}
    → revoke_member d business_id telegram_id staff_member_id now ≡ ok (d', m)
    → (current : ℕ) × (actor : StaffContext) × (target : StaffMember) × (manage d business_id
          telegram_id staff_member_id
        ≡ ok (actor, target))
      × Updates d target.id (revoked_member current) d'
unfolding revoke_member
revoke_member-Updates d business_id telegram_id staff_member_id now {d'} h =
    let (current, _, h1) = >>=-eq-ok (require_aware now) _ h in
    let ((actor, target), managed, h2) =
      >>=-eq-ok (manage d business_id telegram_id staff_member_id) _ h1 in
    let (synced, syncs, h3) =
      >>=-eq-ok
        (sync_business_type (update_member target.id (revoked_member current) d) actor.business_id)
        _ h2 in
    let rows =
      sync_business_type-rows (update_member target.id (revoked_member current) d) synced
        actor.business_id syncs in
    (current, actor, target, managed, ground (arith, rows, h3))

pub change_member_role-Updates :
    (d : Directory) (business_id telegram_id staff_member_id : ℕ) (role : StaffRole)
    {d' : Directory} {m : StaffMember}
    → change_member_role d business_id telegram_id staff_member_id role ≡ ok (d', m)
    → (actor : StaffContext) × (target : StaffMember) × (manage d business_id telegram_id
          staff_member_id
        ≡ ok (actor, target))
      × (require_assignable_role actor role ≡ ok tt)
      × Updates d target.id (with_role role) d'
unfolding change_member_role
change_member_role-Updates d business_id telegram_id staff_member_id role {d'} h =
    let ((actor, target), managed, h1) =
      >>=-eq-ok (manage d business_id telegram_id staff_member_id) _ h in
    let (synced, syncs, h2) =
      >>=-eq-ok
        (require_assignable_role actor role
          >> sync_business_type (update_member target.id (with_role role) d) actor.business_id)
        _ h1 in
    let (_, assignable, syncs1) = >>=-eq-ok (require_assignable_role actor role) _ syncs in
    let rows =
      sync_business_type-rows (update_member target.id (with_role role) d) synced actor.business_id
        syncs1 in
    (actor, target, managed, assignable, ground (arith, rows, h2))

pub set_permission_grant-Updates :
    (d : Directory) (business_id telegram_id staff_member_id : ℕ) (permission : StaffPermission)
    (enabled : Bool) {d' : Directory} {m : StaffMember}
    → set_permission_grant d business_id telegram_id staff_member_id permission enabled ≡ ok (d', m)
    → (staff_member : ℕ) × Updates d staff_member (with_grant permission enabled) d'
unfolding set_permission_grant
set_permission_grant-Updates d business_id telegram_id staff_member_id permission enabled {d'} h =
    let (actor, _, h1) =
      >>=-eq-ok
        (raise_if (not (contains permission grantable_staff_permissions)) authorization
          >> live_context d business_id telegram_id)
        _ h in
    let (target, _, h2) =
      >>=-eq-ok
        (raise_if (not (actor.role is StaffRole.owner)) authorization
          >> found_member (get_by_id d actor.business_id staff_member_id))
        _ h1 in
    let (_, _, h3) = >>=-eq-ok (require_manageable_target actor target) _ h2 in
    (target.id, ground (arith, h3))

pub set_staff_bookable-Updates :
    (d : Directory) (business_id telegram_id staff_member_id : ℕ) (enabled : Bool) {d' : Directory}
    {m : StaffMember}
    → set_staff_bookable d business_id telegram_id staff_member_id enabled ≡ ok (d', m)
    → (staff_member : ℕ) × Updates d staff_member (with_bookable enabled) d'
unfolding set_staff_bookable
set_staff_bookable-Updates d business_id telegram_id staff_member_id enabled {d'} h =
    let (actor, _, h1) = >>=-eq-ok (live_context d business_id telegram_id) _ h in
    let (member, _, h2) =
      >>=-eq-ok
        (require_permission actor (some StaffPermission.manage_staff)
          >> found_member (get_by_id d actor.business_id staff_member_id))
        _ h1 in
    let checks =
      raise_if (not member.is_active || not (is_none member.archived_at)) entity_not_found
      >> raise_if (enabled && not (contains member.role (StaffRole.owner ∷ StaffRole.master ∷ [])))
          authorization in
    let changed = update_member member.id (with_bookable enabled) d in
    let (synced, syncs, h3) =
      >>=-eq-ok (checks >> sync_business_type changed actor.business_id) _ h2 in
    let (_, _, syncs1) = >>=-eq-ok checks _ syncs in
    let rows = sync_business_type-rows changed synced actor.business_id syncs1 in
    (member.id, ground (arith, rows, h3))

pub issue_invitation-rows :
    (d : Directory) (business_id telegram_id : ℕ) (values : StaffInvitationCreate) (digest : Text)
    (new_id : ℕ) (now : Datetime) {d' : Directory} {i : StaffInvitation}
    → issue_invitation d business_id telegram_id values digest new_id now ≡ ok (d', i)
    → (actor : StaffContext) × (live_context d business_id telegram_id ≡ ok actor)
      × (require_assignable_role actor values.role ≡ ok tt)
      × (i.role ≡ values.role)
      × (d'.invitations ≡ i ∷ d.invitations)
      × (d'.members ≡ d.members)
unfolding issue_invitation
issue_invitation-rows d business_id telegram_id values digest new_id now h =
    let (current, _, h1) = >>=-eq-ok (require_aware now) _ h in
    let (actor, live, h2) = >>=-eq-ok (live_context d business_id telegram_id) _ h1 in
    (actor, live, ground arith, ground arith, ground arith, ground arith)
