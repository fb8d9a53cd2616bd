-- ===== src/Staff/Invitations.antt =====
-- app/services/authorization_service.py: the one-time invitations. `digest` is the SHA-256 digest of
-- a token, and `well_formed` says whether the token matches the pattern; the identifiers of new
-- rows are the database's.
use lanrouge_nails_bot.Base.{
  ℕ, ◌+◌, Bool, true, false, not, [], ◌∷◌, Option, none, some, leb, if◌then◌else◌,
}
use lanrouge_nails_bot.Enums.{StaffRole, StaffInvitationStatus, staff_invitation_status_enum, ◌is◌}
use lanrouge_nails_bot.Errors.{
  Result, ok, err, authorization, entity_not_found, raise_if, ◌>>=◌, ◌>>◌,
}
use lanrouge_nails_bot.Text.{Text}
use lanrouge_nails_bot.Time.{Datetime, require_aware, hours}
use lanrouge_nails_bot.Payments.Records.{Outcome, done, raised, attempt}
use lanrouge_nails_bot.Staff.Permissions.{StaffPermission}
use lanrouge_nails_bot.Staff.Rows.{
  update_invitation, sync_business_type, get_invitation_by_id, get_by_user_id, StaffChanges,
  get_or_create_user, get_invitation_by_digest, add_event, StaffMember, StaffInvitation, Directory,
}
use lanrouge_nails_bot.Staff.Rules.{require_assignable_role, require_permission, live_context}
use lanrouge_nails_bot.Staff.Roles.{StaffContext}

-- `StaffInvitationCreate`
pub record StaffInvitationCreate : Type 0 where
  pub role : StaffRole
  pub display_name : Text
  pub is_bookable : Bool
  pub expires_in_hours : ℕ

unfoldable pub issue_invitation :
    Directory
    → (business_id telegram_id : ℕ) → StaffInvitationCreate
    → (digest : Text) → (new_id : ℕ) → (now : Datetime) → Result (Directory × StaffInvitation)
issue_invitation d business_id telegram_id values digest new_id now =
    require_aware now >>= λ current. live_context d business_id telegram_id >>= λ actor.
    require_permission actor (some StaffPermission.invite_staff)
    >> require_assignable_role actor values.role
    >> (let expires_at = current + hours values.expires_in_hours in
        let invitation : StaffInvitation = record {
          id = new_id;
          business_id = actor.business_id;
          token_digest = digest;
          role = values.role;
          display_name = values.display_name;
          is_bookable = values.is_bookable;
          status = StaffInvitationStatus.active;
          expires_at = expires_at;
          created_by_staff_id = actor.staff_member_id;
          accepted_by_user_id = none;
          used_at = none;
          revoked_at = none;
          revoked_by_staff_id = none;
        } in
        ok (
          add_event
              (record {
                business_id = actor.business_id;
                actor_user_id = some actor.user_id;
                entity_id = new_id;
                changes = StaffChanges.invitation_issued values.role values.is_bookable expires_at;
              })
              (record d { invitations = invitation ∷ d.invitations }),
          invitation,
        ))

-- An invitation that a query found and that is still active.
unfoldable pub active_invitation : Option StaffInvitation → Result StaffInvitation
active_invitation none = err authorization
active_invitation (some i) =
    raise_if (not (i.status is StaffInvitationStatus.active)) authorization >> ok i

-- The member that an accepted invitation adds.
abbrev pub invited_member : StaffInvitation → (user_id new_member_id : ℕ) → StaffMember
invited_member i user_id new_member_id = record {
  id = new_member_id;
  business_id = i.business_id;
  user_id = some user_id;
  display_name = i.display_name;
  role = i.role;
  is_active = true;
  is_bookable = i.is_bookable;
  is_bootstrap_owner = false;
  permission_grants = [];
  archived_at = none;
}

-- `existing is not None`
abbrev pub is_known : Option StaffMember → Bool
is_known none = false
is_known (some _) = true

-- The rows that an accepted invitation changes.
unfoldable pub bind_invitation :
    Directory
    → StaffInvitation
    → (telegram_id new_user_id new_member_id current : ℕ) → Result (Directory × StaffMember)
bind_invitation d i telegram_id new_user_id new_member_id current =
    let (with_user, user) = get_or_create_user d telegram_id new_user_id in
    raise_if (is_known (get_by_user_id with_user i.business_id user.id)) authorization
    >> (let member = invited_member i user.id new_member_id in
        sync_business_type
          (update_invitation i.id
            (λ row. record row {
              status = StaffInvitationStatus.used;
              accepted_by_user_id = some user.id;
              used_at = some current;
            })
            (record with_user { members = member ∷ with_user.members }))
          i.business_id
        >>= λ synced. ok (
          add_event
              (record {
                business_id = i.business_id;
                actor_user_id = some user.id;
                entity_id = i.id;
                changes = StaffChanges.invitation_accepted member.id member.role;
              })
              synced,
          member,
        ))

-- What a late use commits before it is refused.
unfoldable pub expire_invitation : Directory → StaffInvitation → Directory
expire_invitation d i =
    add_event
      (record {
        business_id = i.business_id;
        actor_user_id = none;
        entity_id = i.id;
        changes = StaffChanges.invitation_expired;
      })
      (update_invitation i.id (λ row. record row { status = StaffInvitationStatus.expired }) d)

-- An expired invitation is marked so, and committed, before the call raises.
unfoldable pub accept_invitation :
    Directory
    → (well_formed : Bool) → (digest : Text) → (telegram_id new_user_id new_member_id : ℕ)
    → (now : Datetime) → Outcome Directory StaffMember
unfolding bind_invitation expire_invitation
accept_invitation d well_formed digest telegram_id new_user_id new_member_id now =
    attempt d (raise_if (not well_formed) authorization >> require_aware now) λ current.
      attempt d (active_invitation (get_invitation_by_digest d digest)) λ i.
        if leb i.expires_at current
        then raised (expire_invitation d i) authorization
        else attempt d (bind_invitation d i telegram_id new_user_id new_member_id current)
            (λ (bound, member). done bound member)

-- The live actor of `revoke_invitation` and the time, once it may invite.
unfoldable pub revoker :
    Directory → (business_id telegram_id : ℕ) → (now : Datetime) → Result (ℕ × StaffContext)
revoker d business_id telegram_id now = require_aware now >>= λ current.
    live_context d business_id telegram_id >>= λ actor.
    require_permission actor (some StaffPermission.invite_staff) >> ok (current, actor)

-- The active invitation that it may revoke.
unfoldable pub revocable : Directory → StaffContext → (invitation_id : ℕ) → Result StaffInvitation
revocable d actor invitation_id =
    found_active (get_invitation_by_id d actor.business_id invitation_id) >>= λ i.
    require_assignable_role actor i.role >> ok i
  where
    found_active : Option StaffInvitation → Result StaffInvitation
    found_active none = err entity_not_found
    found_active (some i) =
        raise_if (not (i.status is StaffInvitationStatus.active)) entity_not_found >> ok i

abbrev pub revoked_by : (staff_member_id current : ℕ) → StaffInvitation → StaffInvitation
revoked_by staff_member_id current i = record i {
  status = StaffInvitationStatus.revoked;
  revoked_at = some current;
  revoked_by_staff_id = some staff_member_id;
}

-- An expired invitation is marked so, and committed, before the call raises.
unfoldable pub revoke_invitation :
    Directory
    → (business_id telegram_id invitation_id : ℕ) → (now : Datetime)
    → Outcome Directory StaffInvitation
unfolding revoker revocable
revoke_invitation d business_id telegram_id invitation_id now =
    attempt d (revoker d business_id telegram_id now) λ (current, actor).
      attempt d (revocable d actor invitation_id) λ i.
        if leb i.expires_at current
        then raised
            (update_invitation i.id (λ row. record row { status = StaffInvitationStatus.expired })
              d)
            entity_not_found
        else done
            (add_event
              (record {
                business_id = i.business_id;
                actor_user_id = some actor.user_id;
                entity_id = i.id;
                changes = StaffChanges.invitation_revoked i.role;
              })
              (update_invitation i.id (revoked_by actor.staff_member_id current) d))
            (revoked_by actor.staff_member_id current i)
