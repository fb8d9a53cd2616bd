-- ===== src/Reservations/Rules.antt =====
-- app/services/reservation_service.py: the rules that the operations share. A hold is created under a lock
-- of its window, consumed by a paid or approved appointment, and expired or repaired by a worker.
-- The raw token never reaches the rows: `digest` is the token's.
use lanrouge_nails_bot.Base.{
  ℕ, Bool, true, false, not, ◌&&◌, ◌||◌, List, [], ◌∷◌, Option, none, some, ◌==◌, if◌then◌else◌,
}
use lanrouge_nails_bot.Enums.{
  AppointmentStatus, AvailabilityWindowStatus, availability_window_status_enum,
  appointment_status_enum, ManualPaymentStatus, manual_payment_status_enum, PaymentStatus,
  payment_status_enum, reservation_status_enum, ◌is◌, contains,
}
use lanrouge_nails_bot.Errors.{Result, ok, err, reservation_state, raise_if}
use lanrouge_nails_bot.Text.{Text, same_text}
use lanrouge_nails_bot.Lifecycle.Appointments.{ensure_appointment_transition}
use lanrouge_nails_bot.Payments.Records.{Outcome, done, attempt, is_id}
use lanrouge_nails_bot.Reservations.Store.{
  Appointment, BookingReservation, PaymentRow, HistoryReason, Store, update_appointment,
  update_payment,
}

abbrev pub pending_appointment_statuses : List AppointmentStatus
pending_appointment_statuses =
    AppointmentStatus.pending_payment ∷ AppointmentStatus.pending_manual_confirmation ∷ []

abbrev pub confirmed_appointment_statuses : List AppointmentStatus
confirmed_appointment_statuses =
    AppointmentStatus.confirmed ∷ AppointmentStatus.client_confirmed ∷ []

abbrev pub window_release_appointment_statuses : List AppointmentStatus
window_release_appointment_statuses =
    AppointmentStatus.payment_expired ∷ AppointmentStatus.cancelled_by_client
    ∷ AppointmentStatus.cancelled_by_admin ∷ AppointmentStatus.rescheduled ∷ []

abbrev pub taken_window_statuses : List AvailabilityWindowStatus
taken_window_statuses = AvailabilityWindowStatus.reserved ∷ AvailabilityWindowStatus.booked ∷ []

-- app/schemas/reservation.py, `ReservationCreate`
pub record ReservationCreate : Type 0 where
  pub business_id : ℕ
  pub client_id : ℕ
  pub staff_member_id : ℕ
  pub window_id : ℕ
  pub service_id : ℕ
  pub appointment_id : Option ℕ
  pub idempotency_key : Text
  pub ttl_minutes : ℕ
  pub correlation_id : Option Text

-- `ReservationExpiryAction`
pub data ReservationExpiryAction : Type 0 where
  expired reconciled : ReservationExpiryAction

-- `_required_reservation`, `_required_window` and `_required_appointment`: a row that a query found.
abbrev pub required : {A : Type 0} → Option A → Result A
required none = err reservation_state
required (some a) = ok a

-- Equality of optional identifiers.
abbrev pub same_id : Option ℕ → Option ℕ → Bool
same_id found none = is_missing found
  where
    is_missing : Option ℕ → Bool
    is_missing none = true
    is_missing (some _) = false
same_id found (some expected) = is_id found expected

unfoldable pub require_same_reservation :
    BookingReservation → ReservationCreate → Text → Result Unit
require_same_reservation r values digest =
    raise_if
      (not (
        r.client_id == values.client_id
        && r.staff_member_id == values.staff_member_id
        && r.window_id == values.window_id
        && r.service_id == values.service_id
        && same_id r.appointment_id values.appointment_id
        && same_text r.token_digest digest))
      reservation_state

unfoldable pub require_appointment_matches : Appointment → ReservationCreate → Result Unit
require_appointment_matches a values =
    raise_if
      (not (a.business_id == values.business_id)
        || not (a.client_id == values.client_id)
        || not (a.staff_member_id == values.staff_member_id)
        || not (a.window_id == values.window_id)
        || not (a.service_id == values.service_id))
      reservation_state

unfoldable pub require_reservation_matches_appointment :
    BookingReservation → Appointment → Result Unit
require_reservation_matches_appointment r a =
    raise_if
      (not (r.business_id == a.business_id)
        || not (r.client_id == a.client_id)
        || not (r.staff_member_id == a.staff_member_id)
        || not (r.window_id == a.window_id)
        || not (r.service_id == a.service_id))
      reservation_state

unfoldable pub window_can_be_released : Option Appointment → Bool
window_can_be_released none = true
window_can_be_released (some a) = contains a.status window_release_appointment_statuses

-- `_transition_appointment`: the appointment as it is afterwards.
unfoldable pub transition_appointment :
    Store
    → Appointment
    → (target : AppointmentStatus) → (changed_by_user_id : Option ℕ) → HistoryReason
    → Outcome Store Appointment
transition_appointment s a target changed_by_user_id reason =
    attempt s (ensure_appointment_transition a.status target) λ _.
      let moved = update_appointment a.id (λ row. record row { status = target }) s in
      done
        (record moved {
          history =
              record {
                appointment_id = a.id;
                previous_status = a.status;
                new_status = target;
                changed_by_user_id = changed_by_user_id;
                reason = reason;
              }
              ∷ s.history;
        })
        (record a { status = target })

-- `payment is not None and payment.status is PaymentStatus.SUCCEEDED`
unfoldable pub is_succeeded : Option PaymentRow → Bool
is_succeeded none = false
is_succeeded (some p) = p.status is PaymentStatus.succeeded

-- What expiry does to the latest payment of an appointment whose hold ran out.
unfoldable pub cancel_pending_payment : Option PaymentRow → ℕ → Store → Store
cancel_pending_payment none current s = s
cancel_pending_payment (some p) current s =
    if p.status is PaymentStatus.pending
    then update_payment p.id
        (λ row. record row {
          status = PaymentStatus.cancelled;
          cancelled_at = some current;
          manual_status = expire_manual row.manual_status;
        })
        s
    else s
  where
    expire_manual : Option ManualPaymentStatus → Option ManualPaymentStatus
    expire_manual none = none
    expire_manual (some status) =
        if status is ManualPaymentStatus.awaiting_payment
        then some ManualPaymentStatus.expired
        else some status
