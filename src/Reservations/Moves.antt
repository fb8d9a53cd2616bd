-- ===== src/Reservations/Moves.antt =====
-- Creating and consuming a hold keep the windows of the business from being held twice, whichever
-- way they end.
use lanrouge_nails_bot.Base.{
  ℕ, ◌≡◌, refl, false, not, Option, none, some, ◌∷◌, ◌==◌, inl, inr, Bool-cases, Option-cases, ◌+◌,
  arith,
}
use lanrouge_nails_bot.Enums.{
  payment_status_enum, AppointmentStatus, appointment_status_enum, AvailabilityWindowStatus,
  availability_window_status_enum, ReservationStatus, reservation_status_enum, contains,
}
use lanrouge_nails_bot.Errors.{raise_if, value_error, reservation_state, ok}
use lanrouge_nails_bot.Text.{Text}
use lanrouge_nails_bot.Time.{Datetime, minutes, require_aware}
use lanrouge_nails_bot.Payments.Records.{done, final, attempt-holds, and_then-holds}
use lanrouge_nails_bot.Reservations.Store.{
  get_by_idempotency_key, update_reservation, set_window, Appointment, BookingReservation,
  HistoryReason, Store, get, get_active_for_window,
}
use lanrouge_nails_bot.Reservations.Rules.{
  require_same_reservation, pending_appointment_statuses, confirmed_appointment_statuses, required,
  ReservationCreate, transition_appointment,
}
use lanrouge_nails_bot.Reservations.Create.{
  add, require_business, check_new_hold, new_reservation, set_reservation_expires_at, place_hold,
  create,
}
use lanrouge_nails_bot.Reservations.Consume.{
  check_consumption, require_taken_window, confirm_appointment, mark_consumed, consume_hold,
  consume,
}
use lanrouge_nails_bot.Reservations.Exclusive.{
  AreExclusive, IsExclusive, IsExclusive-place, IsExclusive-close, IsExclusive-take,
}
use lanrouge_nails_bot.Reservations.Frames.{transition-frame}

module _ (business_id : ℕ) where
  pub transition-IsExclusive :
      (s : Store) (a : Appointment) (target : AppointmentStatus) (who : Option ℕ)
      (reason : HistoryReason)
      → IsExclusive business_id s
      → IsExclusive business_id (final (transition_appointment s a target who reason))
  transition-IsExclusive = transition-frame (AreExclusive business_id)

  confirm-IsExclusive :
      (s : Store) (a : Appointment) (actor_user_id : Option ℕ)
      → IsExclusive business_id s
      → IsExclusive business_id (final (confirm_appointment business_id s a actor_user_id))
  unfolding confirm_appointment
  confirm-IsExclusive s a actor_user_id h =
      elim (Bool-cases (contains a.status pending_appointment_statuses)) [
        | inl pending ↦ rw pending (
            and_then-holds (IsExclusive business_id)
              (transition_appointment s a AppointmentStatus.confirmed actor_user_id
                HistoryReason.reservation_consumed)
              (λ confirmed _. done confirmed tt)
              (transition-IsExclusive s a AppointmentStatus.confirmed actor_user_id
                HistoryReason.reservation_consumed h)
              (λ _ _ _ kept. kept))
        | inr settled ↦ rw settled (
            attempt-holds (IsExclusive business_id) s
              (raise_if (not (contains a.status confirmed_appointment_statuses)) reservation_state)
              (λ _. done s tt) h (λ _ _. h))
      ]

  mark_consumed-IsExclusive :
      (s : Store) (r : BookingReservation) (appointment_id current : ℕ)
      → IsExclusive business_id s
      → IsExclusive business_id (mark_consumed s r appointment_id current)
  unfolding mark_consumed
  mark_consumed-IsExclusive s r appointment_id current h =
      IsExclusive-take business_id
        (update_reservation r.id
          (λ row. record row {
            appointment_id = some appointment_id;
            status = ReservationStatus.consumed;
            consumed_at = some current;
          })
          s)
        r.window_id AvailabilityWindowStatus.booked refl
        (IsExclusive-close business_id s (λ row. row.id == r.id) _ (λ _. refl) h)

  consume_hold-IsExclusive :
      (s : Store) (r : BookingReservation) (appointment_id : ℕ) (actor_user_id : Option ℕ)
      (correlation_id : Option Text) (current : ℕ)
      → IsExclusive business_id s
      → IsExclusive business_id
          (final (consume_hold business_id s r appointment_id actor_user_id correlation_id current))
  unfolding consume_hold
  consume_hold-IsExclusive s r appointment_id actor_user_id correlation_id current h =
      attempt-holds (IsExclusive business_id) s
        (check_consumption business_id s r appointment_id current) _ h
        λ a _.
          and_then-holds (IsExclusive business_id)
            (confirm_appointment business_id s a actor_user_id) _
            (confirm-IsExclusive s a actor_user_id h)
            λ confirmed _ _ kept.
              attempt-holds (IsExclusive business_id) confirmed
                (require_taken_window business_id confirmed r.window_id) _ kept
                λ _ _. mark_consumed-IsExclusive confirmed r a.id current kept

  pub consume-IsExclusive :
      (s : Store) (reservation_id appointment_id : ℕ) (actor_user_id : Option ℕ)
      (correlation_id : Option Text) (now : Datetime)
      → IsExclusive business_id s
      → IsExclusive business_id (
          final
            (consume business_id s reservation_id appointment_id actor_user_id correlation_id now))
  unfolding consume
  consume-IsExclusive s reservation_id appointment_id actor_user_id correlation_id now h =
      attempt-holds (IsExclusive business_id) s (require_aware now) _ h λ current _.
        attempt-holds (IsExclusive business_id) s (required (get business_id s reservation_id)) _ h
          λ r _. ground (
            arith,
            consume_hold-IsExclusive s r appointment_id actor_user_id correlation_id current h,
          )

  -- The time that a hold sets on its appointment is no part of the windows and holds.
  placed-IsExclusive :
      (s : Store) (appointment : Option Appointment) (r : BookingReservation)
      → IsExclusive business_id s
      → IsExclusive business_id (record s { reservations = r ∷ s.reservations })
      → IsExclusive business_id
          (final (add business_id (set_reservation_expires_at appointment r.expires_at s) r))
  unfolding add set_reservation_expires_at
  placed-IsExclusive s none r before after =
      attempt-holds (IsExclusive business_id) s
        (raise_if (not (r.business_id == business_id)) value_error) _ before (λ _ _. after)
  placed-IsExclusive s (some a) r before after =
      attempt-holds (IsExclusive business_id) (set_reservation_expires_at (some a) r.expires_at s)
        (raise_if (not (r.business_id == business_id)) value_error) _ before (λ _ _. after)

  place_hold-IsExclusive :
      (s : Store) (values : ReservationCreate) (appointment : Option Appointment) (digest : Text)
      (new_id expires_at : ℕ)
      → get_active_for_window business_id s values.window_id ≡ none
      → IsExclusive business_id s
      → IsExclusive business_id (
          final (
            place_hold business_id s values appointment
              (new_reservation values digest new_id expires_at)))
  unfolding place_hold new_reservation
  place_hold-IsExclusive s values appointment digest new_id expires_at unheld h =
      let held = set_window values.window_id AvailabilityWindowStatus.reserved s in
      let r = new_reservation values digest new_id expires_at in
      and_then-holds (IsExclusive business_id)
        (add business_id (set_reservation_expires_at appointment r.expires_at held) r) _
        (placed-IsExclusive held appointment r
          (IsExclusive-take business_id s values.window_id AvailabilityWindowStatus.reserved refl h)
          (IsExclusive-place business_id s r unheld h))
        λ _ _ _ kept. kept

  pub check_new_hold-unheld :
      (s : Store) (values : ReservationCreate) {appointment : Option Appointment}
      → check_new_hold business_id s values ≡ ok appointment
      → get_active_for_window business_id s values.window_id ≡ none
  unfolding check_new_hold
  check_new_hold-unheld s values h = ground arith

  pub create-IsExclusive :
      (s : Store) (values : ReservationCreate) (digest : Text) (new_id : ℕ) (now : Datetime)
      → IsExclusive business_id s
      → IsExclusive business_id (final (create business_id s values digest new_id now))
  unfolding create
  create-IsExclusive s values digest new_id now h =
      attempt-holds (IsExclusive business_id) s (require_aware now) _ h λ current _.
        attempt-holds (IsExclusive business_id) s (require_business business_id values.business_id)
          _ h
          λ _ _.
            let r = new_reservation values digest new_id (current + minutes values.ttl_minutes) in
            elim (Option-cases (get_by_idempotency_key business_id s values.idempotency_key)) [
              | inl new ↦ rw new (
                  attempt-holds (IsExclusive business_id) s (check_new_hold business_id s values)
                    (λ appointment. place_hold business_id s values appointment r) h
                    (λ appointment passed.
                      place_hold-IsExclusive s values appointment digest new_id
                        (current + minutes values.ttl_minutes)
                        (check_new_hold-unheld s values passed) h))
              | inr (existing, known) ↦ rw known (
                  attempt-holds (IsExclusive business_id) s
                    (require_same_reservation existing values digest)
                    (λ _. done s (existing, false)) h (λ _ _. h))
            ]
