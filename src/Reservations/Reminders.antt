-- ===== src/Reservations/Reminders.antt =====
-- app/services/manual_prepayment_service.py: the reminders for the staff that reviews a reported
-- prepayment.
use lanrouge_nails_bot.Base.{
  ◌*◌, ℕ, ◌+◌, Bool, not, ◌&&◌, ◌||◌, List, [], ◌∷◌, ◌++◌, map, select, sorted, any, Option, none,
  some, ◌==◌, leb, ltb, if◌then◌else◌,
}
use lanrouge_nails_bot.Enums.{
  appointment_status_enum, manual_payment_status_enum, payment_mode_enum, payment_status_enum,
  reservation_status_enum, StaffRole, staff_role_enum, ◌is◌, contains,
}
use lanrouge_nails_bot.Time.{minutes}
use lanrouge_nails_bot.Staff.Permissions.{StaffPermission, staff_permission_enum}
use lanrouge_nails_bot.Staff.Roles.{permissions_for_role}
use lanrouge_nails_bot.Reservations.Store.{Appointment, NotificationJob}

-- A member and its user, as the notifications read them.
pub record StaffRecipient : Type 0 where
  pub id : ℕ
  pub role : StaffRole
  pub permission_grants : List StaffPermission
  pub user_id : ℕ
  pub is_blocked : Bool

pub record PaymentSettings : Type 0 where
  pub staff_payment_notifications_enabled : Bool
  pub staff_review_reminder_minutes : Option (List ℕ)

-- `... or [30, 120]`
or_default_offsets : Option (List ℕ) → List ℕ
or_default_offsets none = 30 ∷ 120 ∷ []
or_default_offsets (some []) = 30 ∷ 120 ∷ []
or_default_offsets (some (offset ∷ offsets)) = offset ∷ offsets

distinct : List ℕ → List ℕ
distinct [] = []
distinct (x ∷ xs) = let rest = distinct xs in if any (λ y. y == x) rest then rest else x ∷ rest

-- The offsets of the reminders, in order and once each.
unfoldable pub reminder_offsets : Option (List ℕ) → List ℕ
unfolding or_default_offsets distinct
reminder_offsets offsets = sorted ltb (
    distinct
      (select (λ offset. leb 1 offset && leb offset (7 * 24 * 60)) (or_default_offsets offsets)))

-- Who of the staff is reminded of an appointment.
unfoldable pub is_reminded : Appointment → StaffRecipient → Bool
is_reminded a m =
    not m.is_blocked
    && (not (m.role is StaffRole.master) || m.id == a.staff_member_id)
    && (contains StaffPermission.view_prepayments (permissions_for_role m.role)
        || contains StaffPermission.view_prepayments m.permission_grants)

module _ (business_id : ℕ) where
  unfoldable pub review_jobs :
      Appointment → (current : ℕ) → List ℕ → List StaffRecipient → List NotificationJob
  review_jobs a current offsets [] = []
  review_jobs a current offsets (m ∷ staff_rows) =
      let rest = review_jobs a current offsets staff_rows in
      if is_reminded a m
      then map
          (λ offset. record {
            business_id = business_id;
            appointment_id = a.id;
            recipient_user_id = m.user_id;
            offset_minutes = offset;
            scheduled_at = current + minutes offset;
          })
          offsets
        ++ rest
      else rest

  -- The jobs that the settings ask for.
  unfoldable pub notify_staff :
      Option PaymentSettings
      → Appointment
      → (current : ℕ) → List StaffRecipient
      → List NotificationJob
  unfolding review_jobs
  notify_staff none a current staff_rows = []
  notify_staff (some settings) a current staff_rows =
      if settings.staff_payment_notifications_enabled
      then review_jobs a current (reminder_offsets settings.staff_review_reminder_minutes)
          staff_rows
      else []
