-- ===== src/Reservations/Reconciled.antt =====
-- A hold that ran out while its appointment was paid or confirmed.
use lanrouge_nails_bot.Base.{
  ◌⊎◌, sym, subst, ℕ, ◌≡◌, refl, true, false, Option, none, some, inl, inr, Bool-cases, arith,
}
use lanrouge_nails_bot.Enums.{
  AppointmentStatus, appointment_status_enum, ReservationStatus, contains,
}
use lanrouge_nails_bot.Errors.{ok}
use lanrouge_nails_bot.Time.{aware}
use lanrouge_nails_bot.Payments.Records.{final, done}
use lanrouge_nails_bot.Reservations.Store.{
  get_latest_for_appointment, HistoryReason, AvailabilityWindow, Appointment, BookingReservation,
  get_window_for_update, get_appointment_for_update, Store, get,
}
use lanrouge_nails_bot.Reservations.Rules.{
  is_succeeded, confirmed_appointment_statuses, pending_appointment_statuses,
  ReservationExpiryAction,
}
use lanrouge_nails_bot.Reservations.Expire.{
  settle_claimed, expire_claimed, check_expiry, must_reconcile_as_paid, reconcile, own_appointment,
}
use lanrouge_nails_bot.Reservations.Paid.{audited-IsBooked, marked-IsBooked, moved_on, IsBooked}
use lanrouge_nails_bot.Reservations.Expiry.{check_expiry-window}
use lanrouge_nails_bot.Reservations.Frames.{pending-confirmed}
use lanrouge_nails_bot.Reservations.Lookups.{appointment-id}

module _ (business_id : ℕ) where
  settled-confirmed :
      (s : Store) (a : Appointment)
      → must_reconcile_as_paid business_id s a ≡ true
      → contains a.status pending_appointment_statuses ≡ false
      → contains a.status confirmed_appointment_statuses ≡ true
  unfolding must_reconcile_as_paid
  settled-confirmed s a paid settled = ground arith

  reconcile-IsBooked :
      (s : Store) (r : BookingReservation) (a : Appointment) {w : AvailabilityWindow} (current : ℕ)
      → get business_id s r.id ≡ some r
      → get_appointment_for_update business_id s a.id ≡ some a
      → get_window_for_update business_id s r.window_id ≡ some w
      → must_reconcile_as_paid business_id s a ≡ true
      → (s' : Store) × (reconcile business_id s r a current
          ≡ done s' ReservationExpiryAction.reconciled)
        × IsBooked business_id s' r.id a.id r.window_id
        × (s'.payments ≡ s.payments)
  unfolding reconcile get get_window_for_update
  reconcile-IsBooked s r a {w} current found appointment window paid =
      elim (Bool-cases (contains a.status pending_appointment_statuses)) [
        | inl pending ↦
            let (confirmed, moves, appointment', reservations, windows, payments) =
              moved_on business_id s a AppointmentStatus.confirmed none
                HistoryReason.reservation_expiry_paid_reconciliation appointment
                (pending-confirmed a.status pending) in
            let found' : get business_id confirmed r.id ≡ some r = rw reservations found in
            let window' : get_window_for_update business_id confirmed r.window_id ≡ some w =
              rw windows window in
            (
              final (reconcile business_id s r a current),
              rw pending (rw moves refl),
              rw pending (
                  rw moves (
                    audited-IsBooked business_id _ _ r.id a.id r.window_id (
                      marked-IsBooked business_id confirmed (consumed current) r.id a.id r.window_id
                        (λ _ _. refl) (λ _. refl) found' appointment' refl window'))),
              rw pending (rw moves payments),
            )
        | inr settled ↦ (
          final (reconcile business_id s r a current),
          rw settled refl,
          rw settled (
              audited-IsBooked business_id _ _ r.id a.id r.window_id (
                marked-IsBooked business_id s (consumed current) r.id a.id r.window_id (λ _ _. refl)
                  (λ _. refl) found appointment (settled-confirmed s a paid settled) window)),
          rw settled refl,
        )
      ]
    where
      consumed : ℕ → BookingReservation → BookingReservation
      consumed current row = record row {
        status = ReservationStatus.consumed;
        consumed_at = some current;
      }

  -- The appointment of a hold that passed the tests of `expire_claimed` is the one it names.
  own_appointment-selected :
      (s : Store) (r : BookingReservation) (appointment_id : Option ℕ) {a : Appointment}
      → own_appointment business_id s r appointment_id ≡ ok (some a)
      → (id : ℕ) × (get_appointment_for_update business_id s id ≡ some a)
  unfolding own_appointment
  own_appointment-selected s r none h = ground arith
  own_appointment-selected s r (some appointment_id) h = (appointment_id, ground arith)

  appointment-found :
      (s : Store) (appointment_id : ℕ) {a : Appointment}
      → get_appointment_for_update business_id s appointment_id ≡ some a
      → get_appointment_for_update business_id s a.id ≡ some a
  appointment-found s appointment_id {a} h =
      subst (λ id. get_appointment_for_update business_id s id ≡ some a)
        (sym (appointment-id business_id s appointment_id h)) h

  check_expiry-appointment :
      (s : Store) (r : BookingReservation) (current : ℕ) {w : AvailabilityWindow} {a : Appointment}
      → check_expiry business_id s r current ≡ ok (w, some a)
      → own_appointment business_id s r r.appointment_id ≡ ok (some a)
  unfolding check_expiry
  check_expiry-appointment s r current h = ground arith

  pub check_expiry-found :
      (s : Store) (r : BookingReservation) (current : ℕ) {w : AvailabilityWindow} {a : Appointment}
      → check_expiry business_id s r current ≡ ok (w, some a)
      → get_appointment_for_update business_id s a.id ≡ some a
  check_expiry-found s r current checked =
      let selected =
        own_appointment-selected s r r.appointment_id
          (check_expiry-appointment s r current checked) in
      appointment-found s selected.0 selected.1

  -- The appointment is confirmed, or is pending and its latest payment succeeded.
  unfoldable pub IsPaid : Store → Appointment → Type 0
  IsPaid s a =
      (contains a.status confirmed_appointment_statuses ≡ true)
      ⊎ ((contains a.status pending_appointment_statuses ≡ true)
          × (is_succeeded (get_latest_for_appointment business_id s a.id) ≡ true))

  IsPaid-reconciled :
      (s : Store) (a : Appointment) → IsPaid s a → must_reconcile_as_paid business_id s a ≡ true
  unfolding must_reconcile_as_paid IsPaid
  IsPaid-reconciled s a (inl confirmed) = ground arith
  IsPaid-reconciled s a (inr (pending, succeeded)) = ground arith

  -- A hold that was claimed when it ran out, whose appointment is confirmed, or pending with a
  -- payment that succeeded, does not expire: it is reported as reconciled, the hold is consumed,
  -- the appointment confirmed and the window booked, and no payment changes.
  pub expire_claimed-IsBooked :
      (s : Store) (r : BookingReservation) (current : ℕ) {w : AvailabilityWindow} {a : Appointment}
      → get business_id s r.id ≡ some r
      → check_expiry business_id s r current ≡ ok (w, some a)
      → IsPaid s a
      → (s' : Store) × (expire_claimed business_id s r (aware current)
          ≡ done s' ReservationExpiryAction.reconciled)
        × IsBooked business_id s' r.id a.id r.window_id
        × (s'.payments ≡ s.payments)
  unfolding expire_claimed settle_claimed
  expire_claimed-IsBooked s r current {w} {a} found checked paid =
      let (s', reconciles, books, payments) =
        reconcile-IsBooked s r a current found (check_expiry-found s r current checked)
          (check_expiry-window business_id s r current checked) (IsPaid-reconciled s a paid) in
      (s', rw checked (rw (IsPaid-reconciled s a paid) reconciles), books, payments)
