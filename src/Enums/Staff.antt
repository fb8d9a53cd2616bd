-- ===== src/Enums/Staff.antt =====
-- app/domain/enums.py: staff, business and privacy-request statuses, each with its numbering.
use lanrouge_nails_bot.Base.{ℕ, ◌≡◌, refl, some, List, [], ◌∷◌, get_elem?}
use lanrouge_nails_bot.Enums.Members.{Enum}

pub data BusinessType : Type 0 where
  solo salon : BusinessType

abbrev pub business_type_index : BusinessType → ℕ
business_type_index BusinessType.solo = 0
business_type_index BusinessType.salon = 1

abbrev pub business_type_members : List BusinessType
business_type_members = BusinessType.solo ∷ BusinessType.salon ∷ []

pub business_type_index_sound :
    (a : BusinessType) → get_elem? business_type_members (business_type_index a) ≡ some a
business_type_index_sound BusinessType.solo = refl
business_type_index_sound BusinessType.salon = refl

instance abbrev pub business_type_enum : Enum BusinessType
business_type_enum = record {
  index = business_type_index;
  members = business_type_members;
  index_sound = business_type_index_sound;
}

pub data StaffRole : Type 0 where
  owner manager master receptionist : StaffRole

abbrev pub staff_role_index : StaffRole → ℕ
staff_role_index StaffRole.owner = 0
staff_role_index StaffRole.manager = 1
staff_role_index StaffRole.master = 2
staff_role_index StaffRole.receptionist = 3

abbrev pub staff_role_members : List StaffRole
staff_role_members =
    StaffRole.owner ∷ StaffRole.manager ∷ StaffRole.master ∷ StaffRole.receptionist ∷ []

pub staff_role_index_sound :
    (a : StaffRole) → get_elem? staff_role_members (staff_role_index a) ≡ some a
staff_role_index_sound StaffRole.owner = refl
staff_role_index_sound StaffRole.manager = refl
staff_role_index_sound StaffRole.master = refl
staff_role_index_sound StaffRole.receptionist = refl

instance abbrev pub staff_role_enum : Enum StaffRole
staff_role_enum = record {
  index = staff_role_index;
  members = staff_role_members;
  index_sound = staff_role_index_sound;
}

pub data StaffInvitationStatus : Type 0 where
  active used revoked expired : StaffInvitationStatus

abbrev pub staff_invitation_status_index : StaffInvitationStatus → ℕ
staff_invitation_status_index StaffInvitationStatus.active = 0
staff_invitation_status_index StaffInvitationStatus.used = 1
staff_invitation_status_index StaffInvitationStatus.revoked = 2
staff_invitation_status_index StaffInvitationStatus.expired = 3

abbrev pub staff_invitation_status_members : List StaffInvitationStatus
staff_invitation_status_members =
    StaffInvitationStatus.active ∷ StaffInvitationStatus.used ∷ StaffInvitationStatus.revoked
    ∷ StaffInvitationStatus.expired ∷ []

pub staff_invitation_status_index_sound :
    (a : StaffInvitationStatus)
    → get_elem? staff_invitation_status_members (staff_invitation_status_index a) ≡ some a
staff_invitation_status_index_sound StaffInvitationStatus.active = refl
staff_invitation_status_index_sound StaffInvitationStatus.used = refl
staff_invitation_status_index_sound StaffInvitationStatus.revoked = refl
staff_invitation_status_index_sound StaffInvitationStatus.expired = refl

instance abbrev pub staff_invitation_status_enum : Enum StaffInvitationStatus
staff_invitation_status_enum = record {
  index = staff_invitation_status_index;
  members = staff_invitation_status_members;
  index_sound = staff_invitation_status_index_sound;
}

pub data DataDeletionRequestStatus : Type 0 where
  requested in_review approved processing failed rejected completed cancelled :
      DataDeletionRequestStatus

abbrev pub data_deletion_request_status_index : DataDeletionRequestStatus → ℕ
data_deletion_request_status_index DataDeletionRequestStatus.requested = 0
data_deletion_request_status_index DataDeletionRequestStatus.in_review = 1
data_deletion_request_status_index DataDeletionRequestStatus.approved = 2
data_deletion_request_status_index DataDeletionRequestStatus.processing = 3
data_deletion_request_status_index DataDeletionRequestStatus.failed = 4
data_deletion_request_status_index DataDeletionRequestStatus.rejected = 5
data_deletion_request_status_index DataDeletionRequestStatus.completed = 6
data_deletion_request_status_index DataDeletionRequestStatus.cancelled = 7

abbrev pub data_deletion_request_status_members : List DataDeletionRequestStatus
data_deletion_request_status_members =
    DataDeletionRequestStatus.requested ∷ DataDeletionRequestStatus.in_review
    ∷ DataDeletionRequestStatus.approved ∷ DataDeletionRequestStatus.processing
    ∷ DataDeletionRequestStatus.failed ∷ DataDeletionRequestStatus.rejected
    ∷ DataDeletionRequestStatus.completed ∷ DataDeletionRequestStatus.cancelled ∷ []

pub data_deletion_request_status_index_sound :
    (a : DataDeletionRequestStatus)
    → get_elem? data_deletion_request_status_members (data_deletion_request_status_index a) ≡ some a
data_deletion_request_status_index_sound DataDeletionRequestStatus.requested = refl
data_deletion_request_status_index_sound DataDeletionRequestStatus.in_review = refl
data_deletion_request_status_index_sound DataDeletionRequestStatus.approved = refl
data_deletion_request_status_index_sound DataDeletionRequestStatus.processing = refl
data_deletion_request_status_index_sound DataDeletionRequestStatus.failed = refl
data_deletion_request_status_index_sound DataDeletionRequestStatus.rejected = refl
data_deletion_request_status_index_sound DataDeletionRequestStatus.completed = refl
data_deletion_request_status_index_sound DataDeletionRequestStatus.cancelled = refl

instance abbrev pub data_deletion_request_status_enum : Enum DataDeletionRequestStatus
data_deletion_request_status_enum = record {
  index = data_deletion_request_status_index;
  members = data_deletion_request_status_members;
  index_sound = data_deletion_request_status_index_sound;
}
