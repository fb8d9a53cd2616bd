-- ===== src/Reservations/Frames.antt =====
-- What the changes of an appointment and its payment leave alone.
use lanrouge_nails_bot.Base.{arith, true, ◌≡◌, ℕ, Option, none, some, inl, inr, Bool-cases, List}
use lanrouge_nails_bot.Errors.{ok}
use lanrouge_nails_bot.Enums.{
  PaymentStatus, payment_status_enum, AppointmentStatus, appointment_status_enum,
  availability_window_status_enum, reservation_status_enum, ◌is◌, contains,
}
use lanrouge_nails_bot.Payments.Records.{final, attempt-holds, and_then-holds}
use lanrouge_nails_bot.Lifecycle.Appointments.{ensure_appointment_transition}
use lanrouge_nails_bot.Reservations.Store.{
  update_appointment, get_latest_for_appointment, Appointment, AvailabilityWindow,
  BookingReservation, PaymentRow, HistoryReason, Store,
}
use lanrouge_nails_bot.Reservations.Rules.{
  pending_appointment_statuses, transition_appointment, cancel_pending_payment,
}
use lanrouge_nails_bot.Reservations.Expire.{expire_appointment}

-- A pending appointment may be confirmed, and may expire.
pub pending-confirmed :
    (status : AppointmentStatus)
    → contains status pending_appointment_statuses ≡ true
    → ensure_appointment_transition status AppointmentStatus.confirmed ≡ ok tt
unfolding ensure_appointment_transition
pending-confirmed status h = ground arith

pub pending-expired :
    (status : AppointmentStatus)
    → contains status pending_appointment_statuses ≡ true
    → ensure_appointment_transition status AppointmentStatus.payment_expired ≡ ok tt
unfolding ensure_appointment_transition
pending-expired status h = ground arith

-- What is said of the windows and holds stays so when an appointment or a payment changes.
module _ (P : List BookingReservation → List AvailabilityWindow → Type 0) where
  pub transition-frame :
      (s : Store) (a : Appointment) (target : AppointmentStatus) (who : Option ℕ)
      (reason : HistoryReason)
      → P s.reservations s.windows
      → let s' = final (transition_appointment s a target who reason) in
        P s'.reservations s'.windows
  unfolding transition_appointment
  transition-frame s a target who reason h =
      attempt-holds (λ s'. P s'.reservations s'.windows) s
        (ensure_appointment_transition a.status target) _ h λ _ _. h

  pub cancel_payment-frame :
      (p : Option PaymentRow) (current : ℕ) (s : Store)
      → P s.reservations s.windows
      → let s' = cancel_pending_payment p current s in P s'.reservations s'.windows
  unfolding cancel_pending_payment
  cancel_payment-frame none current s h = h
  cancel_payment-frame (some p) current s h =
      elim (Bool-cases (p.status is PaymentStatus.pending)) [
        | inl pending ↦ rw pending h
        | inr settled ↦ rw settled h
      ]

  pub expire_appointment-frame :
      (business_id : ℕ) (s : Store) (appointment : Option Appointment) (current : ℕ)
      → P s.reservations s.windows
      → let s' = final (expire_appointment business_id s appointment current) in
        P s'.reservations s'.windows
  unfolding expire_appointment
  expire_appointment-frame business_id s none current h = h
  expire_appointment-frame business_id s (some a) current h =
      elim (Bool-cases (contains a.status pending_appointment_statuses)) [
        | inl pending ↦ rw pending (
            and_then-holds (λ s'. P s'.reservations s'.windows)
              (transition_appointment s a AppointmentStatus.payment_expired none
                HistoryReason.reservation_expired)
              _
              (transition-frame s a AppointmentStatus.payment_expired none
                HistoryReason.reservation_expired h)
              (λ moved _ _ kept.
                cancel_payment-frame (get_latest_for_appointment business_id moved a.id) current
                  (update_appointment a.id (λ row. record row { reservation_expires_at = none })
                    moved)
                  kept))
        | inr settled ↦ rw settled h
      ]
