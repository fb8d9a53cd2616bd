-- ===== src/Staff/Permissions.antt =====
-- app/schemas/authorization.py, `StaffPermission`: the permissions, with their numbering.
use lanrouge_nails_bot.Base.{ℕ, ◌≡◌, refl, some, List, [], ◌∷◌, get_elem?}
use lanrouge_nails_bot.Enums.{Enum}

pub data StaffPermission : Type 0 where
  view_business manage_business manage_private_settings view_staff : StaffPermission
  invite_staff manage_staff view_services manage_services : StaffPermission
  view_all_schedules manage_all_schedules view_own_schedule manage_own_schedule : StaffPermission
  view_all_appointments manage_all_appointments view_own_appointments manage_own_appointments :
      StaffPermission
  view_all_clients manage_all_clients view_client_phone view_own_clients : StaffPermission
  manage_own_clients view_payments manage_payments refund_payments : StaffPermission
  view_prepayments approve_prepayments reject_prepayments edit_payment_instructions :
      StaffPermission
  edit_payment_timers change_payment_settings manage_broadcasts view_all_statistics :
      StaffPermission
  view_own_statistics view_feature_flags manage_feature_flags handle_data_deletion : StaffPermission
  override_booking_limit view_vendor_support : StaffPermission

abbrev pub staff_permission_index : StaffPermission → ℕ
staff_permission_index StaffPermission.view_business = 0
staff_permission_index StaffPermission.manage_business = 1
staff_permission_index StaffPermission.manage_private_settings = 2
staff_permission_index StaffPermission.view_staff = 3
staff_permission_index StaffPermission.invite_staff = 4
staff_permission_index StaffPermission.manage_staff = 5
staff_permission_index StaffPermission.view_services = 6
staff_permission_index StaffPermission.manage_services = 7
staff_permission_index StaffPermission.view_all_schedules = 8
staff_permission_index StaffPermission.manage_all_schedules = 9
staff_permission_index StaffPermission.view_own_schedule = 10
staff_permission_index StaffPermission.manage_own_schedule = 11
staff_permission_index StaffPermission.view_all_appointments = 12
staff_permission_index StaffPermission.manage_all_appointments = 13
staff_permission_index StaffPermission.view_own_appointments = 14
staff_permission_index StaffPermission.manage_own_appointments = 15
staff_permission_index StaffPermission.view_all_clients = 16
staff_permission_index StaffPermission.manage_all_clients = 17
staff_permission_index StaffPermission.view_client_phone = 18
staff_permission_index StaffPermission.view_own_clients = 19
staff_permission_index StaffPermission.manage_own_clients = 20
staff_permission_index StaffPermission.view_payments = 21
staff_permission_index StaffPermission.manage_payments = 22
staff_permission_index StaffPermission.refund_payments = 23
staff_permission_index StaffPermission.view_prepayments = 24
staff_permission_index StaffPermission.approve_prepayments = 25
staff_permission_index StaffPermission.reject_prepayments = 26
staff_permission_index StaffPermission.edit_payment_instructions = 27
staff_permission_index StaffPermission.edit_payment_timers = 28
staff_permission_index StaffPermission.change_payment_settings = 29
staff_permission_index StaffPermission.manage_broadcasts = 30
staff_permission_index StaffPermission.view_all_statistics = 31
staff_permission_index StaffPermission.view_own_statistics = 32
staff_permission_index StaffPermission.view_feature_flags = 33
staff_permission_index StaffPermission.manage_feature_flags = 34
staff_permission_index StaffPermission.handle_data_deletion = 35
staff_permission_index StaffPermission.override_booking_limit = 36
staff_permission_index StaffPermission.view_vendor_support = 37

abbrev pub staff_permission_members : List StaffPermission
staff_permission_members =
    StaffPermission.view_business ∷ StaffPermission.manage_business
    ∷ StaffPermission.manage_private_settings ∷ StaffPermission.view_staff
    ∷ StaffPermission.invite_staff ∷ StaffPermission.manage_staff ∷ StaffPermission.view_services
    ∷ StaffPermission.manage_services ∷ StaffPermission.view_all_schedules
    ∷ StaffPermission.manage_all_schedules ∷ StaffPermission.view_own_schedule
    ∷ StaffPermission.manage_own_schedule ∷ StaffPermission.view_all_appointments
    ∷ StaffPermission.manage_all_appointments ∷ StaffPermission.view_own_appointments
    ∷ StaffPermission.manage_own_appointments ∷ StaffPermission.view_all_clients
    ∷ StaffPermission.manage_all_clients ∷ StaffPermission.view_client_phone
    ∷ StaffPermission.view_own_clients ∷ StaffPermission.manage_own_clients
    ∷ StaffPermission.view_payments ∷ StaffPermission.manage_payments
    ∷ StaffPermission.refund_payments ∷ StaffPermission.view_prepayments
    ∷ StaffPermission.approve_prepayments ∷ StaffPermission.reject_prepayments
    ∷ StaffPermission.edit_payment_instructions ∷ StaffPermission.edit_payment_timers
    ∷ StaffPermission.change_payment_settings ∷ StaffPermission.manage_broadcasts
    ∷ StaffPermission.view_all_statistics ∷ StaffPermission.view_own_statistics
    ∷ StaffPermission.view_feature_flags ∷ StaffPermission.manage_feature_flags
    ∷ StaffPermission.handle_data_deletion ∷ StaffPermission.override_booking_limit
    ∷ StaffPermission.view_vendor_support ∷ []

pub staff_permission_index_sound :
    (a : StaffPermission) → get_elem? staff_permission_members (staff_permission_index a) ≡ some a
staff_permission_index_sound StaffPermission.view_business = refl
staff_permission_index_sound StaffPermission.manage_business = refl
staff_permission_index_sound StaffPermission.manage_private_settings = refl
staff_permission_index_sound StaffPermission.view_staff = refl
staff_permission_index_sound StaffPermission.invite_staff = refl
staff_permission_index_sound StaffPermission.manage_staff = refl
staff_permission_index_sound StaffPermission.view_services = refl
staff_permission_index_sound StaffPermission.manage_services = refl
staff_permission_index_sound StaffPermission.view_all_schedules = refl
staff_permission_index_sound StaffPermission.manage_all_schedules = refl
staff_permission_index_sound StaffPermission.view_own_schedule = refl
staff_permission_index_sound StaffPermission.manage_own_schedule = refl
staff_permission_index_sound StaffPermission.view_all_appointments = refl
staff_permission_index_sound StaffPermission.manage_all_appointments = refl
staff_permission_index_sound StaffPermission.view_own_appointments = refl
staff_permission_index_sound StaffPermission.manage_own_appointments = refl
staff_permission_index_sound StaffPermission.view_all_clients = refl
staff_permission_index_sound StaffPermission.manage_all_clients = refl
staff_permission_index_sound StaffPermission.view_client_phone = refl
staff_permission_index_sound StaffPermission.view_own_clients = refl
staff_permission_index_sound StaffPermission.manage_own_clients = refl
staff_permission_index_sound StaffPermission.view_payments = refl
staff_permission_index_sound StaffPermission.manage_payments = refl
staff_permission_index_sound StaffPermission.refund_payments = refl
staff_permission_index_sound StaffPermission.view_prepayments = refl
staff_permission_index_sound StaffPermission.approve_prepayments = refl
staff_permission_index_sound StaffPermission.reject_prepayments = refl
staff_permission_index_sound StaffPermission.edit_payment_instructions = refl
staff_permission_index_sound StaffPermission.edit_payment_timers = refl
staff_permission_index_sound StaffPermission.change_payment_settings = refl
staff_permission_index_sound StaffPermission.manage_broadcasts = refl
staff_permission_index_sound StaffPermission.view_all_statistics = refl
staff_permission_index_sound StaffPermission.view_own_statistics = refl
staff_permission_index_sound StaffPermission.view_feature_flags = refl
staff_permission_index_sound StaffPermission.manage_feature_flags = refl
staff_permission_index_sound StaffPermission.handle_data_deletion = refl
staff_permission_index_sound StaffPermission.override_booking_limit = refl
staff_permission_index_sound StaffPermission.view_vendor_support = refl

instance abbrev pub staff_permission_enum : Enum StaffPermission
staff_permission_enum = record {
  index = staff_permission_index;
  members = staff_permission_members;
  index_sound = staff_permission_index_sound;
}
