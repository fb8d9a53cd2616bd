-- ===== src/Reservations/Store.antt =====
-- app/database/models (the columns that the reservation service reads or writes), and the queries
-- of app/repositories/reservation_repository.py and app/repositories/payment_repository.py on
-- them. A query that takes a unique key returns the first row that it selects. The flush of a new
-- row, where the database assigns its identifier, is the front of the list.
use lanrouge_nails_bot.Base.{
  ℕ, Bool, ◌&&◌, ◌||◌, List, [], ◌∷◌, select, sorted, Option, none, some, ltb, leb, ◌==◌,
  if◌then◌else◌, find, change, take,
}
use lanrouge_nails_bot.Enums.{
  AppointmentStatus, AvailabilityWindowStatus, ManualPaymentStatus, PaymentMode, PaymentStatus,
  payment_status_enum, ReservationStatus, reservation_status_enum, ◌is◌, contains,
}
use lanrouge_nails_bot.Errors.{Result, ok, err, value_error}
use lanrouge_nails_bot.Text.{Text, same_text}
use lanrouge_nails_bot.Payments.Records.{is_id}

pub record AvailabilityWindow : Type 0 where
  pub id : ℕ
  pub business_id : ℕ
  pub staff_member_id : ℕ
  pub status : AvailabilityWindowStatus

pub record Appointment : Type 0 where
  pub id : ℕ
  pub business_id : ℕ
  pub client_id : ℕ
  pub staff_member_id : ℕ
  pub window_id : ℕ
  pub service_id : ℕ
  pub status : AppointmentStatus
  pub reservation_expires_at : Option ℕ

pub record BookingReservation : Type 0 where
  pub id : ℕ
  pub business_id : ℕ
  pub client_id : ℕ
  pub staff_member_id : ℕ
  pub window_id : ℕ
  pub service_id : ℕ
  pub appointment_id : Option ℕ
  pub token_digest : Text
  pub idempotency_key : Text
  pub status : ReservationStatus
  pub expires_at : ℕ
  pub consumed_at : Option ℕ
  pub cancelled_at : Option ℕ
  pub correlation_id : Option Text

-- The `receipt_*` columns of a payment, which are set together.
pub record Receipt : Type 0 where
  pub file_id : Text
  pub file_unique_id : Text
  pub media_type : Text
  pub file_size : ℕ
  pub received_at : ℕ
  pub expires_at : ℕ

pub record PaymentRow : Type 0 where
  pub id : ℕ
  pub business_id : ℕ
  pub appointment_id : ℕ
  pub provider : PaymentMode
  pub client_reported_at : Option ℕ
  pub review_started_at : Option ℕ
  pub receipt : Option Receipt
  pub status : PaymentStatus
  pub manual_status : Option ManualPaymentStatus
  pub created_at : ℕ
  pub cancelled_at : Option ℕ

pub data HistoryReason : Type 0 where
  reservation_consumed reservation_expiry_paid_reconciliation reservation_expired
        client_reported_manual_payment :
      HistoryReason

pub record AppointmentStatusHistory : Type 0 where
  pub appointment_id : ℕ
  pub previous_status : AppointmentStatus
  pub new_status : AppointmentStatus
  pub changed_by_user_id : Option ℕ
  pub reason : HistoryReason

-- The `action` of an audit event and its `changes`.
pub data AuditChanges : Type 0 where
  created :
      (window_id : ℕ)
      → (appointment_id : Option ℕ) → ReservationStatus
      → (expires_at : ℕ) → AuditChanges
  consumed reconciled_paid : (appointment_id : ℕ) → ReservationStatus → AuditChanges
  expired :
      (appointment_id : Option ℕ) → ReservationStatus → AvailabilityWindowStatus → AuditChanges
  manual_client_reported manual_review_requested :
      (appointment_id : ℕ) → (has_receipt : Bool) → AuditChanges

-- A job of the type `PAYMENT_REVIEW_STAFF`, available when it is scheduled.
pub record NotificationJob : Type 0 where
  pub business_id : ℕ
  pub appointment_id : ℕ
  pub recipient_user_id : ℕ
  pub offset_minutes : ℕ
  pub scheduled_at : ℕ

pub record AuditEvent : Type 0 where
  pub actor_user_id : Option ℕ
  pub entity_id : ℕ
  pub changes : AuditChanges
  pub correlation_id : Option Text

pub record Store : Type 0 where
  pub windows : List AvailabilityWindow
  pub appointments : List Appointment
  pub reservations : List BookingReservation
  pub payments : List PaymentRow
  pub history : List AppointmentStatusHistory
  pub audit : List AuditEvent
  pub notifications : List NotificationJob

-- The statuses that hold a window.
abbrev pub holding_statuses : List ReservationStatus
holding_statuses = ReservationStatus.active ∷ ReservationStatus.awaiting_review ∷ []

-- `ORDER BY created_at DESC, id DESC`
abbrev pub payment_before : PaymentRow → PaymentRow → Bool
payment_before p q =
    ltb q.created_at p.created_at || (q.created_at == p.created_at && ltb q.id p.id)

-- `ORDER BY expires_at, id`
abbrev pub expires_before : BookingReservation → BookingReservation → Bool
expires_before r q =
    ltb r.expires_at q.expires_at || (r.expires_at == q.expires_at && ltb r.id q.id)

module _ (business_id : ℕ) where
  abbrev pub is_reservation : ℕ → BookingReservation → Bool
  is_reservation reservation_id r = r.id == reservation_id && r.business_id == business_id

  unfoldable pub get : Store → ℕ → Option BookingReservation
  get s reservation_id = find (is_reservation reservation_id) s.reservations

  unfoldable pub get_by_idempotency_key : Store → Text → Option BookingReservation
  get_by_idempotency_key s key =
      find (λ r. r.business_id == business_id && same_text r.idempotency_key key) s.reservations

  unfoldable pub is_held : ℕ → BookingReservation → Bool
  is_held window_id r =
      r.business_id == business_id && r.window_id == window_id && contains r.status holding_statuses

  unfoldable pub get_active_for_window : Store → ℕ → Option BookingReservation
  get_active_for_window s window_id = find (is_held window_id) s.reservations

  abbrev pub is_active_for : ℕ → BookingReservation → Bool
  is_active_for appointment_id r =
      r.business_id == business_id
      && is_id r.appointment_id appointment_id
      && contains r.status holding_statuses

  unfoldable pub get_active_for_appointment : Store → ℕ → Option BookingReservation
  get_active_for_appointment s appointment_id = find (is_active_for appointment_id) s.reservations

  -- `PaymentRepository.get`
  unfoldable pub get_payment : Store → ℕ → Option PaymentRow
  get_payment s payment_id =
      find (λ p. p.id == payment_id && p.business_id == business_id) s.payments

  unfoldable pub get_window_for_update : Store → ℕ → Option AvailabilityWindow
  get_window_for_update s window_id =
      find (λ w. w.id == window_id && w.business_id == business_id) s.windows

  unfoldable pub get_appointment_for_update : Store → ℕ → Option Appointment
  get_appointment_for_update s appointment_id =
      find (λ a. a.id == appointment_id && a.business_id == business_id) s.appointments

  unfoldable pub get_latest_for_appointment : Store → ℕ → Option PaymentRow
  get_latest_for_appointment s appointment_id = first (
      sorted payment_before (
        select (λ p. p.business_id == business_id && p.appointment_id == appointment_id)
          s.payments))
    where
      first : List PaymentRow → Option PaymentRow
      first [] = none
      first (p ∷ _) = some p

  unfoldable pub is_expired : ℕ → BookingReservation → Bool
  is_expired now r =
      r.business_id == business_id && r.status is ReservationStatus.active && leb r.expires_at now

  unfoldable pub claim_expired : Store → (now limit : ℕ) → Result (List BookingReservation)
  unfolding is_expired
  claim_expired s now limit =
      if leb 1 limit && leb limit 1000
      then ok (take limit (sorted expires_before (select (is_expired now) s.reservations)))
      else err value_error

-- What the methods change of a row: the rows of a table with its primary key.
abbrev pub set_window : ℕ → AvailabilityWindowStatus → Store → Store
set_window window_id status s = record s {
  windows = change (λ w. w.id == window_id) (λ w. record w { status = status }) s.windows;
}

abbrev pub update_appointment : ℕ → (Appointment → Appointment) → Store → Store
update_appointment appointment_id f s = record s {
  appointments = change (λ a. a.id == appointment_id) f s.appointments;
}

abbrev pub update_reservation : ℕ → (BookingReservation → BookingReservation) → Store → Store
update_reservation reservation_id f s = record s {
  reservations = change (λ r. r.id == reservation_id) f s.reservations;
}

abbrev pub update_payment : ℕ → (PaymentRow → PaymentRow) → Store → Store
update_payment payment_id f s = record s {
  payments = change (λ p. p.id == payment_id) f s.payments;
}

abbrev pub add_audit : AuditEvent → Store → Store
add_audit event s = record s { audit = event ∷ s.audit }
