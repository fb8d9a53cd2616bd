-- ===== src/Staff/Authority.antt =====
-- Nobody but the bootstrap owner makes owners: the owners of a business and the invitations that can
-- still make one, counted over the calls of the service.
use lanrouge_nails_bot.Base.{
  count-change_lt, count-change_same, count-change_le, ℕ, ◌≡◌, refl, Bool, false, ◌&&◌, ◌==◌, arith,
  change, count, ◌∷◌, leb, inl, inr, Bool-cases, ◌+◌, ◌≤◌,
}
use lanrouge_nails_bot.Enums.{
  StaffRole, staff_role_enum, ◌is◌, StaffInvitationStatus, staff_invitation_status_enum,
}
use lanrouge_nails_bot.Errors.{ok}
use lanrouge_nails_bot.Text.{same_text, Text}
use lanrouge_nails_bot.Time.{Datetime}
use lanrouge_nails_bot.Payments.Records.{attempt-holds, Outcome-cases, final}
use lanrouge_nails_bot.Staff.Permissions.{StaffPermission}
use lanrouge_nails_bot.Staff.Rows.{
  update_invitation, get_invitation_by_digest, is_none, StaffMember, StaffInvitation, Directory,
}
use lanrouge_nails_bot.Staff.Members.{
  with_bookable, with_grant, with_role, set_staff_bookable, set_permission_grant,
  change_member_role, revoke_member, revoked_member,
}
use lanrouge_nails_bot.Staff.Accepted.{
  accept_invitation-raised, used_by, accept_invitation-Accepts, Accepts,
}
use lanrouge_nails_bot.Staff.Changes.{
  issue_invitation-rows, set_staff_bookable-Updates, set_permission_grant-Updates, manage-cases,
  change_member_role-Updates, revoke_member-Updates, Updates,
}
use lanrouge_nails_bot.Staff.Roles.{can_assign_role, StaffContext}
use lanrouge_nails_bot.Staff.Rules.{live_context, require_assignable_role}
use lanrouge_nails_bot.Staff.Invitations.{
  revoked_by, revocable, revoker, revoke_invitation, expire_invitation, accept_invitation,
  issue_invitation, StaffInvitationCreate,
}

-- Whoever acts is not the bootstrap owner.
unfoldable pub IsOrdinary : Directory → (business_id telegram_id : ℕ) → Type 0
IsOrdinary d business_id telegram_id =
    (actor : StaffContext)
    → live_context d business_id telegram_id ≡ ok actor
    → actor.is_bootstrap_owner ≡ false

-- A call of the service that returned, by someone other than the bootstrap owner.
pub data Act : Directory → Directory → Type 0 where
  revokes :
      (d d' : Directory) (business_id telegram_id staff_member_id : ℕ) (now : Datetime)
      (m : StaffMember)
      → IsOrdinary d business_id telegram_id
      → revoke_member d business_id telegram_id staff_member_id now ≡ ok (d', m)
      → Act d d'
  changes_role :
      (d d' : Directory) (business_id telegram_id staff_member_id : ℕ) (role : StaffRole)
      (m : StaffMember)
      → IsOrdinary d business_id telegram_id
      → change_member_role d business_id telegram_id staff_member_id role ≡ ok (d', m)
      → Act d d'
  sets_grant :
      (d d' : Directory) (business_id telegram_id staff_member_id : ℕ)
      (permission : StaffPermission) (enabled : Bool) (m : StaffMember)
      → IsOrdinary d business_id telegram_id
      → set_permission_grant d business_id telegram_id staff_member_id permission enabled
        ≡ ok (d', m)
      → Act d d'
  sets_bookable :
      (d d' : Directory) (business_id telegram_id staff_member_id : ℕ) (enabled : Bool)
      (m : StaffMember)
      → IsOrdinary d business_id telegram_id
      → set_staff_bookable d business_id telegram_id staff_member_id enabled ≡ ok (d', m)
      → Act d d'
  issues :
      (d d' : Directory) (business_id telegram_id : ℕ) (values : StaffInvitationCreate)
      (digest : Text) (new_id : ℕ) (now : Datetime) (i : StaffInvitation)
      → IsOrdinary d business_id telegram_id
      → issue_invitation d business_id telegram_id values digest new_id now ≡ ok (d', i)
      → Act d d'
  accepts :
      (d : Directory) (well_formed : Bool) (digest : Text)
      (telegram_id new_user_id new_member_id : ℕ) (now : Datetime)
      → Act d
          (final (accept_invitation d well_formed digest telegram_id new_user_id new_member_id now))
  revokes_invitation :
      (d : Directory) (business_id telegram_id invitation_id : ℕ) (now : Datetime)
      → Act d (final (revoke_invitation d business_id telegram_id invitation_id now))

pub data Acts : Directory → Directory → Type 0 where
  no_act : (d : Directory) → Acts d d
  then : (d e f : Directory) → Acts d e → Act e f → Acts d f

-- Tests an assigned role: only a bootstrap owner assigns that of an owner.
assigned-ordinary :
    (actor : StaffContext) (role : StaffRole)
    → actor.is_bootstrap_owner ≡ false
    → require_assignable_role actor role ≡ ok tt
    → role is StaffRole.owner ≡ false
unfolding require_assignable_role can_assign_role
assigned-ordinary actor role ordinary assignable = ground arith

module _ (business_id : ℕ) where
  unfoldable pub is_owner : StaffMember → Bool
  is_owner m =
      m.business_id == business_id
      && m.role is StaffRole.owner
      && m.is_active
      && is_none m.archived_at

  unfoldable pub can_make_owner : StaffInvitation → Bool
  can_make_owner i =
      i.business_id == business_id
      && i.role is StaffRole.owner
      && i.status is StaffInvitationStatus.active

  unfoldable pub owners : Directory → ℕ
  unfolding is_owner can_make_owner
  owners d = count is_owner d.members + count can_make_owner d.invitations

  Updates-owners :
      (d d' : Directory) (staff_member_id : ℕ) (f : StaffMember → StaffMember)
      → Updates d staff_member_id f d'
      → count is_owner (change (λ m. m.id == staff_member_id) f d.members)
        ≤ count is_owner d.members
      → owners d' ≤ owners d
  unfolding owners
  Updates-owners d d' staff_member_id f (members, invitations, _) fewer =
      rw (members, invitations) (omega (arith, fewer))

  accepted-owners :
      (d d' : Directory) (digest : Text) (new_member_id : ℕ) (m : StaffMember)
      → Accepts d digest new_member_id d' m
      → owners d' ≤ owners d
  unfolding owners Accepts get_invitation_by_digest is_owner can_make_owner
  accepted-owners d d' digest new_member_id m
        (i, user_id, current, found, active, _, it, invitations, members) =
      let used = used_by user_id current in
      let fewer =
        count-change_le (λ row. row.id == i.id) used can_make_owner (λ row _. ground arith)
          d.invitations in
      let count_of : count is_owner (m ∷ d.members) ≤ 1 + count is_owner d.members = ground arith in
      elim (Bool-cases (can_make_owner i)) [
        | inl makes ↦
            let lost =
              count-change_lt (λ row. row.id == i.id) used can_make_owner (λ row _. ground arith)
                (λ (row : StaffInvitation). same_text row.token_digest digest) d.invitations found
                (ground arith) makes in
            rw (members, invitations) (omega (arith, count_of, lost))
        | inr other ↦
            let not_owner : is_owner m ≡ false = rw it (ground (arith, other, active)) in
            let same : count is_owner (m ∷ d.members) ≡ count is_owner d.members =
              rw not_owner refl in
            rw (members, invitations) (omega (arith, same, fewer))
      ]

  closed-owners :
      (d : Directory) (invitation_id : ℕ) (f : StaffInvitation → StaffInvitation)
      → ((i : StaffInvitation) → (f i).status is StaffInvitationStatus.active ≡ false)
      → owners (update_invitation invitation_id f d) ≤ owners d
  unfolding owners can_make_owner
  closed-owners d invitation_id f closes = omega (
    arith,
    count-change_le (λ row. row.id == invitation_id) f can_make_owner
        (λ row _. ground (arith, closes row)) d.invitations,
  )

  accept_invitation-owners :
      (d : Directory) (well_formed : Bool) (digest : Text)
      (telegram_id new_user_id new_member_id : ℕ) (now : Datetime)
      → owners
          (final (accept_invitation d well_formed digest telegram_id new_user_id new_member_id now))
        ≤ owners d
  unfolding expire_invitation owners
  accept_invitation-owners d well_formed digest telegram_id new_user_id new_member_id now =
      let o = accept_invitation d well_formed digest telegram_id new_user_id new_member_id now in
      elim (Outcome-cases o) [
        | inl (d', m, accepted) ↦ rw accepted (
            accepted-owners d d' digest new_member_id m (
              accept_invitation-Accepts d well_formed digest telegram_id new_user_id new_member_id
                now accepted))
        | inr (d', e, raises) ↦
            elim (accept_invitation-raised d well_formed digest telegram_id new_user_id
              new_member_id now raises) [
                | inl same ↦ rw (raises, same) (omega arith)
                | inr (i, late) ↦ rw (raises, late) (closed-owners d i.id _ (λ _. refl))
              ]
      ]

  revoke_invitation-owners :
      (d : Directory) (business_id telegram_id invitation_id : ℕ) (now : Datetime)
      → owners (final (revoke_invitation d business_id telegram_id invitation_id now)) ≤ owners d
  unfolding revoke_invitation owners
  revoke_invitation-owners d b telegram_id invitation_id now =
      attempt-holds (λ d'. owners d' ≤ owners d) d (revoker d b telegram_id now) _ (omega arith)
        λ (current, actor) _.
          attempt-holds (λ d'. owners d' ≤ owners d) d (revocable d actor invitation_id) _
            (omega arith)
            λ i _.
              let expired =
                closed-owners d i.id (λ row. record row { status = StaffInvitationStatus.expired })
                  (λ _. refl) in
              let revoked' =
                closed-owners d i.id (revoked_by actor.staff_member_id current) (λ _. refl) in
              elim (Bool-cases (leb i.expires_at current)) [
                | inl late ↦ rw late expired
                | inr in_time ↦ rw in_time revoked'
              ]

  Act-owners : (d d' : Directory) → Act d d' → owners d' ≤ owners d
  unfolding is_owner can_make_owner IsOrdinary owners
  Act-owners d d' (revokes _ _ b t id now m ordinary h) =
      let (current, actor, target, managed, updates) = revoke_member-Updates d b t id now h in
      Updates-owners d d' target.id (revoked_member current) updates (
        count-change_le (λ m. m.id == target.id) (revoked_member current) is_owner
          (λ m _. ground arith) d.members)
  Act-owners d d' (changes_role _ _ b t id role m ordinary h) =
      let (actor, target, managed, assignable, updates) =
        change_member_role-Updates d b t id role h in
      let live = (manage-cases d b t id managed).0 in
      let lower = assigned-ordinary actor role (ordinary actor live) assignable in
      Updates-owners d d' target.id (with_role role) updates (
        count-change_le (λ m. m.id == target.id) (with_role role) is_owner
          (λ m _. ground (arith, lower)) d.members)
  Act-owners d d' (sets_grant _ _ b t id permission enabled m ordinary h) =
      let (target, updates) = set_permission_grant-Updates d b t id permission enabled h in
      Updates-owners d d' target (with_grant permission enabled) updates (
        omega (
          arith,
          count-change_same (λ m. m.id == target) (with_grant permission enabled) is_owner d.members
              (λ _ _. refl),
        ))
  Act-owners d d' (sets_bookable _ _ b t id enabled m ordinary h) =
      let (target, updates) = set_staff_bookable-Updates d b t id enabled h in
      Updates-owners d d' target (with_bookable enabled) updates (
        omega (
          arith,
          count-change_same (λ m. m.id == target) (with_bookable enabled) is_owner d.members
              (λ _ _. refl),
        ))
  Act-owners d d' (issues _ _ b t values digest new_id now i ordinary h) =
      let (actor, live, assignable, role, invitations, members) =
        issue_invitation-rows d b t values digest new_id now h in
      let lower = assigned-ordinary actor values.role (ordinary actor live) assignable in
      let fewer : count can_make_owner (i ∷ d.invitations) ≤ count can_make_owner d.invitations =
        ground (arith, lower, role) in
      rw (members, invitations) (omega (arith, fewer))
  Act-owners d _ (accepts _ well_formed digest t new_user_id new_member_id now) =
      accept_invitation-owners d well_formed digest t new_user_id new_member_id now
  Act-owners d _ (revokes_invitation _ b t id now) = revoke_invitation-owners d b t id now

  -- Any calls of the service by others than the bootstrap owner, and any accepted invitations, leave
  -- no more owners of a business, counted with the active invitations of owners, than there were.
  pub Acts-owners : (d d' : Directory) → Acts d d' → owners d' ≤ owners d
  Acts-owners d _ (no_act _) = omega arith
  Acts-owners d f (then _ e _ before act) =
      omega (arith, Acts-owners d e before, Act-owners e f act)
