-- ===== src/Reservations/Consume.antt =====
-- app/services/reservation_service.py, `ReservationService.consume`: the hold of a paid or approved
-- appointment becomes its booking.
use lanrouge_nails_bot.Base.{ℕ, not, ◌&&◌, Option, none, some, leb, ◌∷◌, [], if◌then◌else◌}
use lanrouge_nails_bot.Enums.{
  AppointmentStatus, appointment_status_enum, AvailabilityWindowStatus,
  availability_window_status_enum, ReservationStatus, reservation_status_enum, ◌is◌, contains,
}
use lanrouge_nails_bot.Errors.{Result, ok, reservation_state, ◌>>=◌, ◌>>◌, raise_if}
use lanrouge_nails_bot.Text.{Text}
use lanrouge_nails_bot.Time.{Datetime, require_aware}
use lanrouge_nails_bot.Lifecycle.Reservations.{ensure_reservation_transition}
use lanrouge_nails_bot.Payments.Records.{Outcome, done, raised, attempt, and_then, is_id}
use lanrouge_nails_bot.Reservations.Store.{
  Appointment, BookingReservation, HistoryReason, AuditChanges, Store, get, get_window_for_update,
  get_appointment_for_update, get_latest_for_appointment, set_window, update_appointment,
  update_reservation, add_audit,
}
use lanrouge_nails_bot.Reservations.Rules.{
  required, require_reservation_matches_appointment, transition_appointment, is_succeeded,
  pending_appointment_statuses, confirmed_appointment_statuses, taken_window_statuses,
}

-- `correlation_id or reservation.correlation_id`
abbrev pub own_or : Option Text → Option Text → Option Text
own_or none known = known
own_or (some []) known = known
own_or (some (c ∷ s)) known = some (c ∷ s)

-- What consuming changes of the rows.
unfoldable pub mark_consumed : Store → BookingReservation → (appointment_id current : ℕ) → Store
mark_consumed s r appointment_id current = set_window r.window_id AvailabilityWindowStatus.booked (
    update_appointment appointment_id (λ row. record row { reservation_expires_at = none })
      (update_reservation r.id
        (λ row. record row {
          appointment_id = some appointment_id;
          status = ReservationStatus.consumed;
          consumed_at = some current;
        })
        s))

module _ (business_id : ℕ) where
  -- The tests on a hold that is not consumed yet, before anything is mutated.
  unfoldable pub check_consumption :
      Store → BookingReservation → (appointment_id current : ℕ) → Result Appointment
  check_consumption s r appointment_id current =
      ensure_reservation_transition r.status ReservationStatus.consumed
      >> raise_if (r.status is ReservationStatus.active && leb r.expires_at current)
          reservation_state
      >> required (get_appointment_for_update business_id s appointment_id)
      >>= λ a.
          require_reservation_matches_appointment r a
          >> raise_if
              (a.status is AppointmentStatus.pending_payment
                && not (is_succeeded (get_latest_for_appointment business_id s a.id)))
              reservation_state
          >> ok a

  -- The appointment is confirmed now, or is already.
  unfoldable pub confirm_appointment :
      Store → Appointment → (actor_user_id : Option ℕ) → Outcome Store Unit
  confirm_appointment s a actor_user_id =
      if contains a.status pending_appointment_statuses
      then and_then
          (transition_appointment s a AppointmentStatus.confirmed actor_user_id
            HistoryReason.reservation_consumed)
          (λ confirmed _. done confirmed tt)
      else attempt s
          (raise_if (not (contains a.status confirmed_appointment_statuses)) reservation_state)
          (λ _. done s tt)

  -- `_required_window`, and that it is taken.
  unfoldable pub require_taken_window : Store → ℕ → Result Unit
  require_taken_window s window_id =
      required (get_window_for_update business_id s window_id) >>= λ window.
      raise_if (not (contains window.status taken_window_statuses)) reservation_state

  -- The hold of `appointment_id`, once it is loaded and not yet consumed.
  unfoldable pub consume_hold :
      Store
      → BookingReservation
      → (appointment_id : ℕ) → (actor_user_id : Option ℕ) → (correlation_id : Option Text)
      → (current : ℕ) → Outcome Store BookingReservation
  unfolding check_consumption confirm_appointment require_taken_window mark_consumed
  consume_hold s r appointment_id actor_user_id correlation_id current =
      attempt s (check_consumption s r appointment_id current) λ a.
        and_then (confirm_appointment s a actor_user_id) λ confirmed _.
          attempt confirmed (require_taken_window confirmed r.window_id) λ _.
            done
              (add_audit
                (record {
                  actor_user_id = actor_user_id;
                  entity_id = r.id;
                  changes = AuditChanges.consumed a.id ReservationStatus.consumed;
                  correlation_id = own_or correlation_id r.correlation_id;
                })
                (mark_consumed confirmed r a.id current))
              (record r {
                appointment_id = some a.id;
                status = ReservationStatus.consumed;
                consumed_at = some current;
              })

  unfoldable pub consume :
      Store
      → (reservation_id appointment_id : ℕ) → (actor_user_id : Option ℕ)
      → (correlation_id : Option Text) → (now : Datetime) → Outcome Store BookingReservation
  unfolding consume_hold get
  consume s reservation_id appointment_id actor_user_id correlation_id now =
      attempt s (require_aware now) λ current.
        attempt s (required (get business_id s reservation_id)) λ r.
          if r.status is ReservationStatus.consumed
          then (if is_id r.appointment_id appointment_id
              then done s r
              else raised s reservation_state)
          else consume_hold s r appointment_id actor_user_id correlation_id current
