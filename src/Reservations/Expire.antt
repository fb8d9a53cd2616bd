-- ===== src/Reservations/Expire.antt =====
-- app/services/reservation_service.py, `ReservationService.expire_claimed`: a hold that ran out is
-- expired, or repaired where its appointment is paid or confirmed. `r` is the row that was claimed.
use lanrouge_nails_bot.Base.{
  ℕ, Bool, true, false, not, ◌&&◌, Option, none, some, ltb, if◌then◌else◌,
}
use lanrouge_nails_bot.Enums.{
  AppointmentStatus, appointment_status_enum, AvailabilityWindowStatus,
  availability_window_status_enum, ReservationStatus, reservation_status_enum, ◌is◌, contains,
}
use lanrouge_nails_bot.Errors.{Result, ok, reservation_state, ◌>>=◌, ◌>>◌, raise_if}
use lanrouge_nails_bot.Time.{Datetime, require_aware}
use lanrouge_nails_bot.Lifecycle.Reservations.{ensure_reservation_transition}
use lanrouge_nails_bot.Payments.Records.{Outcome, done, attempt, and_then}
use lanrouge_nails_bot.Reservations.Store.{
  Appointment, AvailabilityWindow, BookingReservation, HistoryReason, AuditChanges, Store,
  get_window_for_update, get_appointment_for_update, get_latest_for_appointment, set_window,
  update_appointment, update_reservation, add_audit,
}
use lanrouge_nails_bot.Reservations.Rules.{
  ReservationExpiryAction, required, require_reservation_matches_appointment,
  transition_appointment, is_succeeded, cancel_pending_payment, window_can_be_released,
  pending_appointment_statuses, confirmed_appointment_statuses, taken_window_statuses,
}
use lanrouge_nails_bot.Reservations.Create.{require_business}

-- The window of an expired hold opens again if its appointment lets it.
unfoldable pub is_released : Option Appointment → AvailabilityWindow → Bool
unfolding window_can_be_released
is_released appointment window =
    window_can_be_released appointment && contains window.status taken_window_statuses

module _ (business_id : ℕ) where
  -- The appointment of a hold, where it has one.
  unfoldable pub own_appointment :
      Store → BookingReservation → Option ℕ → Result (Option Appointment)
  own_appointment s r none = ok none
  own_appointment s r (some appointment_id) =
      required (get_appointment_for_update business_id s appointment_id) >>= λ a.
      require_reservation_matches_appointment r a >> ok (some a)

  -- The tests of `expire_claimed`, which mutate nothing.
  unfoldable pub check_expiry :
      Store → BookingReservation → (current : ℕ) → Result (AvailabilityWindow × Option Appointment)
  check_expiry s r current =
      require_business business_id r.business_id
      >> raise_if (not (r.status is ReservationStatus.active)) reservation_state
      >> raise_if (ltb current r.expires_at) reservation_state
      >> required (get_window_for_update business_id s r.window_id)
      >>= λ window. own_appointment s r r.appointment_id >>= λ appointment. ok (window, appointment)

  -- `_must_reconcile_as_paid`
  unfoldable pub must_reconcile_as_paid : Store → Appointment → Bool
  must_reconcile_as_paid s a =
      if contains a.status confirmed_appointment_statuses
      then true
      else if not (contains a.status pending_appointment_statuses)
      then false
      else is_succeeded (get_latest_for_appointment business_id s a.id)

  -- The rows of a hold that turns out to be paid.
  unfoldable pub reconcile :
      Store
      → BookingReservation
      → Appointment
      → (current : ℕ) → Outcome Store ReservationExpiryAction
  reconcile s r a current =
      and_then
        (if contains a.status pending_appointment_statuses
          then transition_appointment s a AppointmentStatus.confirmed none
              HistoryReason.reservation_expiry_paid_reconciliation
          else done s a)
        λ confirmed _.
          done
            (add_audit
              (record {
                actor_user_id = none;
                entity_id = r.id;
                changes = AuditChanges.reconciled_paid a.id ReservationStatus.consumed;
                correlation_id = r.correlation_id;
              })
              (set_window r.window_id AvailabilityWindowStatus.booked (
                update_appointment a.id (λ row. record row { reservation_expires_at = none })
                  (update_reservation r.id
                    (λ row. record row {
                      status = ReservationStatus.consumed;
                      consumed_at = some current;
                    })
                    confirmed))))
            ReservationExpiryAction.reconciled

  -- A pending appointment expires with its hold, and so does its pending payment.
  unfoldable pub expire_appointment :
      Store → Option Appointment → (current : ℕ) → Outcome Store (Option Appointment)
  unfolding cancel_pending_payment
  expire_appointment s none current = done s none
  expire_appointment s (some a) current =
      if contains a.status pending_appointment_statuses
      then and_then
          (transition_appointment s a AppointmentStatus.payment_expired none
            HistoryReason.reservation_expired)
          (λ moved a'.
            done
              (cancel_pending_payment (get_latest_for_appointment business_id moved a.id) current (
                update_appointment a.id (λ row. record row { reservation_expires_at = none })
                  moved))
              (some a'))
      else done s (some a)

  -- The rows of a hold that is not paid.
  unfoldable pub expire_hold :
      Store
      → BookingReservation
      → AvailabilityWindow
      → Option Appointment
      → (current : ℕ) → Outcome Store ReservationExpiryAction
  unfolding expire_appointment is_released
  expire_hold s r window appointment current =
      and_then (expire_appointment s appointment current) λ moved appointment'.
        attempt moved (ensure_reservation_transition r.status ReservationStatus.expired) λ _.
          let released = is_released appointment' window in
          let cancelled =
            update_reservation r.id
              (λ row. record row {
                status = ReservationStatus.expired;
                cancelled_at = some current;
              })
              moved in
          done
            (add_audit
              (record {
                actor_user_id = none;
                entity_id = r.id;
                changes =
                    AuditChanges.expired r.appointment_id ReservationStatus.expired
                      (if released then AvailabilityWindowStatus.open_ else window.status);
                correlation_id = r.correlation_id;
              })
              (if released
                then set_window window.id AvailabilityWindowStatus.open_ cancelled
                else cancelled))
            ReservationExpiryAction.expired

  unfoldable pub settle_claimed :
      Store
      → BookingReservation
      → AvailabilityWindow
      → Option Appointment
      → (current : ℕ) → Outcome Store ReservationExpiryAction
  unfolding must_reconcile_as_paid reconcile expire_hold
  settle_claimed s r window none current = expire_hold s r window none current
  settle_claimed s r window (some a) current =
      if must_reconcile_as_paid s a
      then reconcile s r a current
      else expire_hold s r window (some a) current

  unfoldable pub expire_claimed :
      Store → BookingReservation → (now : Datetime) → Outcome Store ReservationExpiryAction
  unfolding check_expiry settle_claimed
  expire_claimed s r now = attempt s (require_aware now) λ current.
      attempt s (check_expiry s r current)
        λ (window, appointment). settle_claimed s r window appointment current
