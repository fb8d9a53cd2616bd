-- ===== src/Reservations/Released.antt =====
-- A hold that ran out unpaid: what its expiry leaves behind, and that an expiry that raises has
-- changed nothing.
use lanrouge_nails_bot.Base.{
  ap, if◌then◌else◌, subst, change, ◌∙◌, All_of, change-All, All-map, All, ℕ, ◌≡◌, refl, true,
  false, Option, none, some, ◌==◌, inl, inr, Bool-cases, arith,
}
use lanrouge_nails_bot.Enums.{
  ◌is◌, AppointmentStatus, appointment_status_enum, ReservationStatus, reservation_status_enum,
  AvailabilityWindowStatus, availability_window_status_enum, contains, PaymentStatus,
  payment_status_enum,
}
use lanrouge_nails_bot.Errors.{ok}
use lanrouge_nails_bot.Time.{aware}
use lanrouge_nails_bot.Payments.Records.{final, done}
use lanrouge_nails_bot.Reservations.Store.{
  update_reservation, get_window_for_update, AvailabilityWindow, BookingReservation,
  update_appointment, HistoryReason, get_appointment_for_update, get_latest_for_appointment,
  PaymentRow, Appointment, Store, get,
}
use lanrouge_nails_bot.Reservations.Expire.{
  must_reconcile_as_paid, check_expiry, settle_claimed, expire_claimed, is_released, expire_hold,
  expire_appointment,
}
use lanrouge_nails_bot.Reservations.Rules.{
  is_succeeded, taken_window_statuses, ReservationExpiryAction, window_can_be_released,
  pending_appointment_statuses, cancel_pending_payment,
}
use lanrouge_nails_bot.Reservations.Paid.{moved_on}
use lanrouge_nails_bot.Reservations.Frames.{pending-expired}
use lanrouge_nails_bot.Lifecycle.Reservations.{ensure_reservation_transition}
use lanrouge_nails_bot.Reservations.Lookups.{
  window-id, window-changed, appointment-same, reservation-changed, window-same, reservation-same,
  appointment-changed,
}
use lanrouge_nails_bot.Reservations.Expiry.{check_expiry-window, check_expiry-active}
use lanrouge_nails_bot.Reservations.Reconciled.{check_expiry-found}

module _ (business_id : ℕ) where
  -- The payment row, if it was the latest one, is not pending any more.
  abbrev IsSettled : Option PaymentRow → Store → Type 0
  IsSettled none s = Unit
  IsSettled (some p) s =
      All
        (λ row.
          row.id == p.id ≡ true
          → p.status is PaymentStatus.pending ≡ true
          → row.status ≡ PaymentStatus.cancelled)
        s.payments

  cancel_pending_payment-IsSettled :
      (p : Option PaymentRow) (current : ℕ) (s : Store)
      → let s' = cancel_pending_payment p current s in
        IsSettled p s'
        × (s'.reservations ≡ s.reservations)
        × (s'.windows ≡ s.windows)
        × (s'.appointments ≡ s.appointments)
  unfolding cancel_pending_payment
  cancel_pending_payment-IsSettled none current s = (tt, refl, refl, refl)
  cancel_pending_payment-IsSettled (some p) current s =
      elim (Bool-cases (p.status is PaymentStatus.pending)) [
        | inl pending ↦ rw pending (
          All-map (λ _ made chosen _. made chosen) _
              (change-All (λ (row : PaymentRow). row.status ≡ PaymentStatus.cancelled)
                (λ row. row.id == p.id) _ s.payments (λ _. refl)),
          refl,
          refl,
          refl,
        )
        | inr settled ↦
            rw settled (All_of (λ _ _ pending. ground arith) s.payments, refl, refl, refl)
      ]

  -- The rows of an appointment that expired with its hold.
  abbrev IsExpiredFor : Store → Appointment → Store → Type 0
  IsExpiredFor s a s' =
      (get_appointment_for_update business_id s' a.id
        ≡ some (record a {
          status = AppointmentStatus.payment_expired;
          reservation_expires_at = none;
        }))
      × IsSettled (get_latest_for_appointment business_id s a.id) s'
      × (s'.reservations ≡ s.reservations)
      × (s'.windows ≡ s.windows)

  latest-same :
      (s s' : Store) (appointment_id : ℕ)
      → s'.payments ≡ s.payments
      → get_latest_for_appointment business_id s' appointment_id
        ≡ get_latest_for_appointment business_id s appointment_id
  unfolding get_latest_for_appointment
  latest-same s s' appointment_id same = rw same refl

  expire_appointment-pending :
      (s : Store) (a : Appointment) (current : ℕ)
      → get_appointment_for_update business_id s a.id ≡ some a
      → contains a.status pending_appointment_statuses ≡ true
      → (s' : Store) × (expire_appointment business_id s (some a) current
          ≡ done s' (some (record a { status = AppointmentStatus.payment_expired })))
        × IsExpiredFor s a s'
  unfolding expire_appointment
  expire_appointment-pending s a current found pending =
      let (s1, moves, found1, reservations, windows, payments) =
        moved_on business_id s a AppointmentStatus.payment_expired none
          HistoryReason.reservation_expired found (pending-expired a.status pending) in
      let latest = get_latest_for_appointment business_id s1 a.id in
      let cleared =
        update_appointment a.id (λ row. record row { reservation_expires_at = none }) s1 in
      let (settled, reservations', windows', appointments') =
        cancel_pending_payment-IsSettled latest current cleared in
      let s' = cancel_pending_payment latest current cleared in
      (
        s',
        rw (pending, moves) refl,
        (
          appointment-changed business_id s1 s' a.id
              (λ row. record row { reservation_expires_at = none }) (λ _. refl) appointments'
              found1,
          subst (λ p. IsSettled p s') (latest-same s s1 a.id payments) settled,
          reservations' ∙ reservations,
          windows' ∙ windows,
        ),
      )

  -- The hold and its appointment expired, the window is open again if it was taken, and the latest
  -- payment of the appointment is not pending any more.
  unfoldable pub IsReleased :
      Store → BookingReservation → AvailabilityWindow → Appointment → Store → Type 0
  IsReleased s r w a s' =
      ((r' : BookingReservation) × (get business_id s' r.id ≡ some r')
        × (r'.status ≡ ReservationStatus.expired))
      × (get_appointment_for_update business_id s' a.id
          ≡ some (record a {
            status = AppointmentStatus.payment_expired;
            reservation_expires_at = none;
          }))
      × (get_window_for_update business_id s' r.window_id
          ≡ some (record w {
            status =
                if contains w.status taken_window_statuses
                then AvailabilityWindowStatus.open_
                else w.status;
          }))
      × IsSettled (get_latest_for_appointment business_id s a.id) s'

  IsSettled-same :
      (p : Option PaymentRow) (s s' : Store)
      → s'.payments ≡ s.payments
      → IsSettled p s
      → IsSettled p s'
  IsSettled-same none s s' same h = tt
  IsSettled-same (some p) s s' same h = rw same h

  expire_hold-IsReleased :
      (s : Store) (r : BookingReservation) (w : AvailabilityWindow) (a : Appointment) (current : ℕ)
      → ensure_reservation_transition r.status ReservationStatus.expired ≡ ok tt
      → get business_id s r.id ≡ some r
      → get_appointment_for_update business_id s a.id ≡ some a
      → get_window_for_update business_id s r.window_id ≡ some w
      → contains a.status pending_appointment_statuses ≡ true
      → (s' : Store) × (expire_hold business_id s r w (some a) current
          ≡ done s' ReservationExpiryAction.expired)
        × IsReleased s r w a s'
  unfolding expire_hold IsReleased is_released window_can_be_released
  expire_hold-IsReleased s r w a current allowed found appointment window pending =
      let (s1, expires, (appointment1, settled, reservations, windows)) =
        expire_appointment-pending s a current appointment pending in
      let s2 = update_reservation r.id (cancelled current) s1 in
      let found1 = reservation-same business_id s s1 r.id reservations found in
      let window1 = window-same business_id s s1 r.window_id windows window in
      let found2 =
        reservation-changed business_id s1 s2 r.id (cancelled current) (λ _. refl) refl found1 in
      elim (Bool-cases (contains w.status taken_window_statuses)) [
        | inl taken ↦ (
          final (expire_hold business_id s r w (some a) current),
          rw (expires, allowed, taken) refl,
          rw (expires, allowed, taken)
              (
                (cancelled current r, reservation-same business_id s2 _ r.id refl found2, refl),
                appointment-same business_id s1 _ a.id refl appointment1,
                window-changed business_id s1 _ r.window_id AvailabilityWindowStatus.open_
                    (ap
                      (λ i.
                        change (λ (row : AvailabilityWindow). row.id == i)
                          (λ row. record row { status = AvailabilityWindowStatus.open_ })
                          s1.windows)
                      (window-id business_id s1 r.window_id window1))
                    window1,
                IsSettled-same (get_latest_for_appointment business_id s a.id) s1 _ refl settled,
              ),
        )
        | inr other ↦ (
          final (expire_hold business_id s r w (some a) current),
          rw (expires, allowed, other) refl,
          rw (expires, allowed, other)
              (
                (cancelled current r, reservation-same business_id s2 _ r.id refl found2, refl),
                appointment-same business_id s1 _ a.id refl appointment1,
                window-same business_id s1 _ r.window_id refl window1,
                IsSettled-same (get_latest_for_appointment business_id s a.id) s1 _ refl settled,
              ),
        )
      ]
    where
      cancelled : ℕ → BookingReservation → BookingReservation
      cancelled current row = record row {
        status = ReservationStatus.expired;
        cancelled_at = some current;
      }

  unpaid-must_reconcile_as_paid :
      (s : Store) (a : Appointment)
      → is_succeeded (get_latest_for_appointment business_id s a.id) ≡ false
      → contains a.status pending_appointment_statuses ≡ true
      → must_reconcile_as_paid business_id s a ≡ false
  unfolding must_reconcile_as_paid
  unpaid-must_reconcile_as_paid s a unpaid pending = ground arith

  -- A hold that was claimed when it ran out, whose appointment is pending without a payment that
  -- succeeded, expires: it is reported as expired, its appointment expires with it and loses its
  -- deadline, the window opens again if it was taken, and the latest payment of the appointment is
  -- cancelled if it was pending.
  pub expire_claimed-IsReleased :
      (s : Store) (r : BookingReservation) (current : ℕ) {w : AvailabilityWindow} {a : Appointment}
      → get business_id s r.id ≡ some r
      → check_expiry business_id s r current ≡ ok (w, some a)
      → is_succeeded (get_latest_for_appointment business_id s a.id) ≡ false
      → contains a.status pending_appointment_statuses ≡ true
      → (s' : Store) × (expire_claimed business_id s r (aware current)
          ≡ done s' ReservationExpiryAction.expired)
        × IsReleased s r w a s'
  unfolding expire_claimed settle_claimed
  expire_claimed-IsReleased s r current {w} {a} found checked unpaid pending =
      let (s', expires, released) =
        expire_hold-IsReleased s r w a current (check_expiry-active business_id s r current checked)
          found (check_expiry-found business_id s r current checked)
          (check_expiry-window business_id s r current checked) pending in
      (s', rw checked (rw (unpaid-must_reconcile_as_paid s a unpaid pending) expires), released)
