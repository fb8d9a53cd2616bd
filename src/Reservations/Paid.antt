-- ===== src/Reservations/Paid.antt =====
-- What the two ways to finish a paid or approved hold leave behind.
use lanrouge_nails_bot.Base.{◌∷◌, change, ℕ, ◌≡◌, refl, true, Option, none, some, ◌==◌}
use lanrouge_nails_bot.Errors.{ok}
use lanrouge_nails_bot.Payments.Records.{done}
use lanrouge_nails_bot.Enums.{
  AppointmentStatus, appointment_status_enum, ReservationStatus, AvailabilityWindowStatus, contains,
}
use lanrouge_nails_bot.Reservations.Store.{
  add_audit, AuditEvent, HistoryReason, update_reservation, update_appointment, set_window,
  is_reservation, AvailabilityWindow, get_window_for_update, Appointment,
  get_appointment_for_update, BookingReservation, Store, get,
}
use lanrouge_nails_bot.Reservations.Rules.{transition_appointment, confirmed_appointment_statuses}
use lanrouge_nails_bot.Lifecycle.Appointments.{ensure_appointment_transition}
use lanrouge_nails_bot.Reservations.Lookups.{
  window-changed, reservation-changed, appointment-changed,
}

module _ (business_id : ℕ) where
  -- The hold is consumed, its appointment confirmed without a deadline, and its window booked.
  unfoldable pub IsBooked : Store → (reservation_id appointment_id window_id : ℕ) → Type 0
  IsBooked s reservation_id appointment_id window_id =
      ((r : BookingReservation) × (get business_id s reservation_id ≡ some r)
        × (r.status ≡ ReservationStatus.consumed))
      × ((a : Appointment) × (get_appointment_for_update business_id s appointment_id ≡ some a)
          × (contains a.status confirmed_appointment_statuses ≡ true)
          × (a.reservation_expires_at ≡ none))
      × (w : AvailabilityWindow) × (get_window_for_update business_id s window_id ≡ some w)
      × (w.status ≡ AvailabilityWindowStatus.booked)

  -- The rows after a hold was marked consumed and its window booked.
  pub marked-IsBooked :
      (s : Store) (f : BookingReservation → BookingReservation) {r : BookingReservation}
      {a : Appointment} {w : AvailabilityWindow} (reservation_id appointment_id window_id : ℕ)
      → ((row : BookingReservation) (id : ℕ)
          → is_reservation business_id id (f row) ≡ is_reservation business_id id row)
      → ((row : BookingReservation) → (f row).status ≡ ReservationStatus.consumed)
      → get business_id s reservation_id ≡ some r
      → get_appointment_for_update business_id s appointment_id ≡ some a
      → contains a.status confirmed_appointment_statuses ≡ true
      → get_window_for_update business_id s window_id ≡ some w
      → IsBooked
          (set_window window_id AvailabilityWindowStatus.booked (
            update_appointment appointment_id
              (λ row. record row { reservation_expires_at = none })
              (update_reservation reservation_id f s)))
          reservation_id
          appointment_id
          window_id
  unfolding IsBooked get get_appointment_for_update get_window_for_update
  marked-IsBooked s f {r} {a} {w} reservation_id appointment_id window_id keeps consumes found
        appointment confirmed window =
      let s1 = update_reservation reservation_id f s in
      let s2 =
        update_appointment appointment_id (λ row. record row { reservation_expires_at = none })
          s1 in
      (
        (
          f r,
          reservation-changed business_id s s1 reservation_id f (λ row. keeps row reservation_id)
              refl found,
          consumes r,
        ),
        (
          record a { reservation_expires_at = none },
          appointment-changed business_id s1 s2 appointment_id
              (λ row. record row { reservation_expires_at = none }) (λ _. refl) refl appointment,
          confirmed,
          refl,
        ),
        record w { status = AvailabilityWindowStatus.booked },
        window-changed business_id s2 (set_window window_id AvailabilityWindowStatus.booked s2)
            window_id AvailabilityWindowStatus.booked refl window,
        refl,
      )

  pub audited-IsBooked :
      (event : AuditEvent) (s : Store) (reservation_id appointment_id window_id : ℕ)
      → IsBooked s reservation_id appointment_id window_id
      → IsBooked (add_audit event s) reservation_id appointment_id window_id
  unfolding IsBooked get get_appointment_for_update get_window_for_update
  audited-IsBooked event s reservation_id appointment_id window_id h = h

  -- A pending appointment that moved on is found where it moved.
  pub moved_on :
      (s : Store) (a : Appointment) (target : AppointmentStatus) (who : Option ℕ)
      (reason : HistoryReason)
      → get_appointment_for_update business_id s a.id ≡ some a
      → ensure_appointment_transition a.status target ≡ ok tt
      → (s' : Store) × (transition_appointment s a target who reason
          ≡ done s' (record a { status = target }))
        × (get_appointment_for_update business_id s' a.id ≡ some (record a { status = target }))
        × (s'.reservations ≡ s.reservations)
        × (s'.windows ≡ s.windows)
        × (s'.payments ≡ s.payments)
  unfolding transition_appointment
  moved_on s a target who reason found allowed =
      let moved : Store = record s {
        appointments =
            change (λ row. row.id == a.id) (λ row. record row { status = target }) s.appointments;
        history =
            record {
              appointment_id = a.id;
              previous_status = a.status;
              new_status = target;
              changed_by_user_id = who;
              reason = reason;
            }
            ∷ s.history;
      } in
      (
        moved,
        rw allowed refl,
        appointment-changed business_id s moved a.id (λ row. record row { status = target })
            (λ _. refl) refl found,
        refl,
        refl,
        refl,
      )
