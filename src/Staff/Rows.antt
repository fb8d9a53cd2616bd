-- ===== src/Staff/Rows.antt =====
-- app/database/models/business.py (the columns that the modelled methods read or write) and the
-- queries of app/repositories/staff_repository.py. A query that takes a unique key returns the
-- first row that it selects. The stored grants are read as a set: their order is left out.
use lanrouge_nails_bot.Base.{
  ℕ, Bool, true, false, ◌&&◌, List, ◌∷◌, Option, none, some, ltb, ◌==◌, if◌then◌else◌, find, change,
  count,
}
use lanrouge_nails_bot.Enums.{BusinessType, StaffRole, StaffInvitationStatus}
use lanrouge_nails_bot.Errors.{Result, ok, err, value_error}
use lanrouge_nails_bot.Text.{Text, same_text}
use lanrouge_nails_bot.Payments.Records.{is_id}
use lanrouge_nails_bot.Staff.Permissions.{StaffPermission}

pub record Business : Type 0 where
  pub id : ℕ
  pub business_type : BusinessType

pub record User : Type 0 where
  pub id : ℕ
  pub telegram_id : ℕ

pub record StaffMember : Type 0 where
  pub id : ℕ
  pub business_id : ℕ
  pub user_id : Option ℕ
  pub display_name : Text
  pub role : StaffRole
  pub is_active : Bool
  pub is_bookable : Bool
  pub is_bootstrap_owner : Bool
  pub permission_grants : List StaffPermission
  pub archived_at : Option ℕ

pub record StaffInvitation : Type 0 where
  pub id : ℕ
  pub business_id : ℕ
  pub token_digest : Text
  pub role : StaffRole
  pub display_name : Text
  pub is_bookable : Bool
  pub status : StaffInvitationStatus
  pub expires_at : ℕ
  pub created_by_staff_id : ℕ
  pub accepted_by_user_id : Option ℕ
  pub used_at : Option ℕ
  pub revoked_at : Option ℕ
  pub revoked_by_staff_id : Option ℕ

-- The `action` of an audit event and its `changes`.
pub data StaffChanges : Type 0 where
  invitation_issued : StaffRole → (is_bookable : Bool) → (expires_at : ℕ) → StaffChanges
  invitation_expired : StaffChanges
  invitation_accepted : (staff_member_id : ℕ) → StaffRole → StaffChanges
  invitation_revoked role_revoked : StaffRole → StaffChanges
  role_changed : (previous_role role : StaffRole) → StaffChanges
  permission_grant_changed : StaffPermission → (enabled : Bool) → StaffChanges
  bookable_changed : (enabled : Bool) → StaffChanges

pub record StaffEvent : Type 0 where
  pub business_id : ℕ
  pub actor_user_id : Option ℕ
  pub entity_id : ℕ
  pub changes : StaffChanges

pub record Directory : Type 0 where
  pub businesses : List Business
  pub users : List User
  pub members : List StaffMember
  pub invitations : List StaffInvitation
  pub events : List StaffEvent

abbrev pub is_none : Option ℕ → Bool
is_none none = true
is_none (some _) = false

unfoldable pub get_by_id : Directory → (business_id staff_member_id : ℕ) → Option StaffMember
get_by_id d business_id staff_member_id =
    find (λ m. m.id == staff_member_id && m.business_id == business_id) d.members

unfoldable pub get_by_user_id : Directory → (business_id user_id : ℕ) → Option StaffMember
get_by_user_id d business_id user_id =
    find (λ m. m.business_id == business_id && is_id m.user_id user_id) d.members

-- The membership of a user, active and not archived: `active_only`.
abbrev pub is_live_member : (business_id user_id : ℕ) → StaffMember → Bool
is_live_member business_id user_id m =
    m.business_id == business_id && is_id m.user_id user_id && m.is_active && is_none m.archived_at

-- The join over the user that a Telegram identity is unique for.
unfoldable pub get_by_telegram_id :
    Directory → (business_id telegram_id : ℕ) → Option (StaffMember × User)
get_by_telegram_id d business_id telegram_id =
    join (find (λ u. u.telegram_id == telegram_id) d.users)
  where
    with_user : User → Option StaffMember → Option (StaffMember × User)
    with_user u none = none
    with_user u (some m) = some (m, u)

    join : Option User → Option (StaffMember × User)
    join none = none
    join (some u) = with_user u (find (is_live_member business_id u.id) d.members)

unfoldable pub get_invitation_by_digest : Directory → Text → Option StaffInvitation
get_invitation_by_digest d digest = find (λ i. same_text i.token_digest digest) d.invitations

unfoldable pub get_invitation_by_id :
    Directory → (business_id invitation_id : ℕ) → Option StaffInvitation
get_invitation_by_id d business_id invitation_id =
    find (λ i. i.id == invitation_id && i.business_id == business_id) d.invitations

-- The specialists that clients can book.
unfoldable pub is_specialist : ℕ → StaffMember → Bool
is_specialist business_id m =
    m.business_id == business_id && m.is_active && m.is_bookable && is_none m.archived_at

-- The business type that the number of specialists asks for.
unfoldable pub derived_type : Directory → ℕ → BusinessType
unfolding is_specialist
derived_type d business_id =
    if ltb 1 (count (is_specialist business_id) d.members)
    then BusinessType.salon
    else BusinessType.solo

unfoldable pub sync_business_type : Directory → ℕ → Result Directory
unfolding derived_type
sync_business_type d business_id = synced (find (λ b. b.id == business_id) d.businesses)
  where
    synced : Option Business → Result Directory
    synced none = err value_error
    synced (some _) = ok (record d {
      businesses =
          change (λ b. b.id == business_id)
            (λ b. record b { business_type = derived_type d business_id }) d.businesses;
    })

-- `get_or_create_user`: `new_user_id` is the identifier of a row that the database adds.
unfoldable pub get_or_create_user : Directory → (telegram_id new_user_id : ℕ) → Directory × User
get_or_create_user d telegram_id new_user_id =
    bound (find (λ u. u.telegram_id == telegram_id) d.users)
  where
    bound : Option User → Directory × User
    bound (some u) = (d, u)
    bound none =
        let u : User = record { id = new_user_id; telegram_id = telegram_id } in
        (record d { users = u ∷ d.users }, u)

-- What the methods change of a row: the rows of a table with its primary key.
abbrev pub update_member : ℕ → (StaffMember → StaffMember) → Directory → Directory
update_member staff_member_id f d = record d {
  members = change (λ m. m.id == staff_member_id) f d.members;
}

abbrev pub update_invitation : ℕ → (StaffInvitation → StaffInvitation) → Directory → Directory
update_invitation invitation_id f d = record d {
  invitations = change (λ i. i.id == invitation_id) f d.invitations;
}

abbrev pub add_event : StaffEvent → Directory → Directory
add_event event d = record d { events = event ∷ d.events }
