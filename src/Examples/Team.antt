-- ===== src/Examples/Team.antt =====
-- A business with its bootstrap owner, a second owner, a manager and a master.
use lanrouge_nails_bot.Base.{arith, ℕ, ◌≡◌, ◌≢◌, ◌≤◌, refl, true, false, none, some, [], ◌∷◌}
use lanrouge_nails_bot.Enums.{BusinessType, StaffRole, StaffInvitationStatus}
use lanrouge_nails_bot.Errors.{ok, err, authorization}
use lanrouge_nails_bot.Text.{same_text, Text}
use lanrouge_nails_bot.Time.{aware}
use lanrouge_nails_bot.Payments.Records.{done, raised, final}
use lanrouge_nails_bot.Staff.Rows.{
  sync_business_type, get_or_create_user, get_by_user_id, get_by_id, get_invitation_by_digest,
  get_by_telegram_id, StaffChanges, StaffMember, StaffInvitation, Directory,
}
use lanrouge_nails_bot.Staff.Access.{revoke_member-authorize}
use lanrouge_nails_bot.Staff.Authority.{revokes, no_act, then, Acts-owners, owners, IsOrdinary}
use lanrouge_nails_bot.Staff.Derived.{revoking, Changes-IsDerived, IsDerived}
use lanrouge_nails_bot.Staff.Invitations.{active_invitation, invited_member, accept_invitation}
use lanrouge_nails_bot.Staff.Members.{revoked_member, revoke_member, authorize}
use lanrouge_nails_bot.Staff.Roles.{has_permission, StaffContext}
use lanrouge_nails_bot.Staff.Accepted.{accept_invitation_once}
use lanrouge_nails_bot.Staff.Rules.{
  context_of, require_manageable_target, require_permission, live_context,
}

abbrev member : (id user_id : ℕ) → StaffRole → StaffMember
member id user_id role = record {
  id = id;
  business_id = 1;
  user_id = some user_id;
  display_name = [];
  role = role;
  is_active = true;
  is_bookable = false;
  is_bootstrap_owner = false;
  permission_grants = [];
  archived_at = none;
}

abbrev boss : StaffMember
boss = record (member 1 1 StaffRole.owner) { is_bootstrap_owner = true; is_bookable = true }

abbrev partner : StaffMember
partner = member 2 2 StaffRole.owner

abbrev master : StaffMember
master = record (member 3 3 StaffRole.master) { is_bookable = true }

abbrev code : Text
code = b'i' ∷ []

abbrev invitation : StaffInvitation
invitation = record {
  id = 6;
  business_id = 1;
  token_digest = code;
  role = StaffRole.receptionist;
  display_name = [];
  is_bookable = false;
  status = StaffInvitationStatus.active;
  expires_at = 100;
  created_by_staff_id = 1;
  accepted_by_user_id = none;
  used_at = none;
  revoked_at = none;
  revoked_by_staff_id = none;
}

abbrev team : Directory
team = record {
  businesses = record { id = 1; business_type = BusinessType.salon } ∷ [];
  users =
      record { id = 1; telegram_id = 101 }
      ∷ record { id = 2; telegram_id = 102 }
      ∷ record { id = 3; telegram_id = 103 }
      ∷ [];
  members = boss ∷ partner ∷ master ∷ [];
  invitations = invitation ∷ [];
  events = [];
}

-- The second owner revokes the master; nobody but the bootstrap owner may revoke an owner.
abbrev smaller : Directory
smaller = record team {
  businesses = record { id = 1; business_type = BusinessType.solo } ∷ [];
  members = boss ∷ partner ∷ revoked_member 50 master ∷ [];
  events =
      record {
        business_id = 1;
        actor_user_id = some 2;
        entity_id = 3;
        changes = StaffChanges.role_revoked StaffRole.master;
      }
      ∷ [];
}

partner_revokes : revoke_member team 1 102 3 (aware 50) ≡ ok (smaller, revoked_member 50 master)
unfolding revoke_member live_context get_by_telegram_id require_permission has_permission get_by_id
    require_manageable_target sync_business_type
partner_revokes = refl

partner_refused : revoke_member team 1 102 1 (aware 50) ≡ err authorization
unfolding revoke_member live_context get_by_telegram_id require_permission has_permission get_by_id
    require_manageable_target
partner_refused = refl

abbrev boss_acts : StaffContext
boss_acts = record {
  business_id = 1;
  staff_member_id = 1;
  user_id = 1;
  telegram_id = 101;
  display_name = [];
  role = StaffRole.owner;
  is_bookable = true;
  is_bootstrap_owner = true;
  permission_grants = [];
}

boss_authorized : authorize smaller 1 101 none ≡ ok boss_acts
unfolding authorize live_context get_by_telegram_id require_permission
boss_authorized = refl

revoke_member-authorize_example : boss_acts.staff_member_id ≢ 3
revoke_member-authorize_example =
    revoke_member-authorize team 1 102 3 (aware 50) 1 101 none partner_revokes boss_authorized

Changes-IsDerived_example : IsDerived smaller 1
Changes-IsDerived_example =
    Changes-IsDerived 1 team smaller
      (revoking team smaller 102 3 (aware 50) (revoked_member 50 master) partner_revokes)

partner-IsOrdinary : IsOrdinary team 1 102
unfolding IsOrdinary live_context context_of get_by_telegram_id
partner-IsOrdinary = λ actor live. ground arith

Acts-owners_example : owners 1 smaller ≤ owners 1 team
Acts-owners_example = Acts-owners 1 team smaller (
    then team team smaller (no_act team) (
      revokes team smaller 1 102 3 (aware 50) (revoked_member 50 master) partner-IsOrdinary
        partner_revokes))

-- A receptionist accepts the invitation.
abbrev accepted : Directory
accepted = final (accept_invitation team true code 104 4 7 (aware 50))

receptionist_joins :
    accept_invitation team true code 104 4 7 (aware 50)
    ≡ done accepted (invited_member invitation 4 7)
unfolding accept_invitation active_invitation get_invitation_by_digest same_text get_by_user_id
    get_or_create_user sync_business_type
receptionist_joins = refl

accept_invitation_once_example :
    accept_invitation accepted true code 105 5 8 (aware 60) ≡ raised accepted authorization
accept_invitation_once_example =
    accept_invitation_once team code 104 105 4 7 5 8 (aware 50) 60 receptionist_joins
