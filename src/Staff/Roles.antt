-- ===== src/Staff/Roles.antt =====
-- app/schemas/authorization.py: the permission matrix, and who may assign which role.
use lanrouge_nails_bot.Base.{ℕ, Bool, true, ◌&&◌, ◌||◌, List, [], ◌∷◌, if◌then◌else◌}
use lanrouge_nails_bot.Enums.{StaffRole, staff_role_enum, ◌is◌, contains}
use lanrouge_nails_bot.Text.{Text}
use lanrouge_nails_bot.Staff.Permissions.{
  StaffPermission, staff_permission_members, staff_permission_enum,
}

abbrev pub grantable_staff_permissions : List StaffPermission
grantable_staff_permissions =
    StaffPermission.invite_staff ∷ StaffPermission.manage_staff ∷ StaffPermission.manage_broadcasts
    ∷ StaffPermission.override_booking_limit ∷ []

abbrev pub owner_permissions : List StaffPermission
owner_permissions = staff_permission_members

abbrev pub manager_permissions : List StaffPermission
manager_permissions =
    StaffPermission.view_business ∷ StaffPermission.view_staff ∷ StaffPermission.view_services
    ∷ StaffPermission.manage_services ∷ StaffPermission.view_all_schedules
    ∷ StaffPermission.manage_all_schedules ∷ StaffPermission.view_all_appointments
    ∷ StaffPermission.manage_all_appointments ∷ StaffPermission.view_all_clients
    ∷ StaffPermission.manage_all_clients ∷ StaffPermission.view_client_phone
    ∷ StaffPermission.view_payments ∷ StaffPermission.manage_payments
    ∷ StaffPermission.view_prepayments ∷ StaffPermission.approve_prepayments
    ∷ StaffPermission.reject_prepayments ∷ StaffPermission.manage_broadcasts
    ∷ StaffPermission.view_all_statistics ∷ StaffPermission.view_feature_flags
    ∷ StaffPermission.view_vendor_support ∷ []

abbrev pub master_permissions : List StaffPermission
master_permissions =
    StaffPermission.view_business ∷ StaffPermission.view_services
    ∷ StaffPermission.view_own_schedule ∷ StaffPermission.manage_own_schedule
    ∷ StaffPermission.view_own_appointments ∷ StaffPermission.manage_own_appointments
    ∷ StaffPermission.view_own_clients ∷ StaffPermission.manage_own_clients
    ∷ StaffPermission.view_prepayments ∷ StaffPermission.approve_prepayments
    ∷ StaffPermission.view_own_statistics ∷ StaffPermission.view_vendor_support ∷ []

abbrev pub receptionist_permissions : List StaffPermission
receptionist_permissions =
    StaffPermission.view_business ∷ StaffPermission.view_staff ∷ StaffPermission.view_services
    ∷ StaffPermission.view_all_schedules ∷ StaffPermission.view_all_appointments
    ∷ StaffPermission.manage_all_appointments ∷ StaffPermission.view_all_clients
    ∷ StaffPermission.manage_all_clients ∷ StaffPermission.view_client_phone
    ∷ StaffPermission.view_payments ∷ StaffPermission.view_prepayments
    ∷ StaffPermission.approve_prepayments ∷ StaffPermission.reject_prepayments
    ∷ StaffPermission.view_all_statistics ∷ []

abbrev pub permissions_for_role : StaffRole → List StaffPermission
permissions_for_role StaffRole.owner = owner_permissions
permissions_for_role StaffRole.manager = manager_permissions
permissions_for_role StaffRole.master = master_permissions
permissions_for_role StaffRole.receptionist = receptionist_permissions

unfoldable pub can_assign_role :
    (actor_role target_role : StaffRole) → (actor_is_bootstrap : Bool) → Bool
can_assign_role actor_role target_role actor_is_bootstrap =
    if target_role is StaffRole.owner
    then actor_is_bootstrap
    else if actor_role is StaffRole.owner
    then true
    else actor_role is StaffRole.manager
      && contains target_role (StaffRole.master ∷ StaffRole.receptionist ∷ [])

pub record StaffContext : Type 0 where
  pub business_id : ℕ
  pub staff_member_id : ℕ
  pub user_id : ℕ
  pub telegram_id : ℕ
  pub display_name : Text
  pub role : StaffRole
  pub is_bookable : Bool
  pub is_bootstrap_owner : Bool
  pub permission_grants : List StaffPermission

-- `permission in self.permissions`
unfoldable pub has_permission : StaffContext → StaffPermission → Bool
has_permission context permission =
    if context.is_bootstrap_owner
    then contains permission owner_permissions
    else contains permission (permissions_for_role context.role)
      || contains permission context.permission_grants
