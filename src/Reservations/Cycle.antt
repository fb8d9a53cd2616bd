-- ===== src/Reservations/Cycle.antt =====
-- What the worker does to the holds: each that it finishes is closed, and the windows of the business
-- stay held at most once.
use lanrouge_nails_bot.Base.{
  ◌∙◌, ap, sym, if◌then◌else◌, change, ℕ, ◌≡◌, refl, false, Option, none, some, ◌==◌, inl, inr,
  Bool-cases, arith,
}
use lanrouge_nails_bot.Enums.{
  AppointmentStatus, appointment_status_enum, ReservationStatus, reservation_status_enum, contains,
  ◌is◌,
}
use lanrouge_nails_bot.Time.{require_aware, Datetime}
use lanrouge_nails_bot.Payments.Records.{
  done-state, final, Outcome, attempt-done, and_then-done, done,
}
use lanrouge_nails_bot.Reservations.Store.{
  HistoryReason, AvailabilityWindow, Appointment, BookingReservation, Store,
}
use lanrouge_nails_bot.Reservations.Expire.{
  check_expiry, must_reconcile_as_paid, settle_claimed, expire_claimed, expire_appointment,
  reconcile, expire_hold,
}
use lanrouge_nails_bot.Reservations.Rules.{
  transition_appointment, pending_appointment_statuses, ReservationExpiryAction,
}
use lanrouge_nails_bot.Lifecycle.Reservations.{ensure_reservation_transition}
use lanrouge_nails_bot.Reservations.Frames.{transition-frame, expire_appointment-frame}

-- The rows with an identifier got a status that is not active, and kept what else a query reads.
unfoldable pub IsClosed : Store → (reservation_id : ℕ) → Store → Type 0
IsClosed s reservation_id s' =
    (f : BookingReservation → BookingReservation) × ((row : BookingReservation)
      → ((f row).id ≡ row.id)
        × ((f row).business_id ≡ row.business_id)
        × ((f row).status is ReservationStatus.active ≡ false))
    × (s'.reservations ≡ change (λ row. row.id == reservation_id) f s.reservations)

module _ (business_id : ℕ) where
  reconcile-IsClosed :
      (s : Store) (r : BookingReservation) (a : Appointment) (current : ℕ) {s' : Store}
      {action : ReservationExpiryAction}
      → reconcile business_id s r a current ≡ done s' action
      → IsClosed s r.id s'
  unfolding reconcile IsClosed
  reconcile-IsClosed s r a current {s'} h =
      let step : Outcome Store Appointment =
        if contains a.status pending_appointment_statuses
        then transition_appointment s a AppointmentStatus.confirmed none
            HistoryReason.reservation_expiry_paid_reconciliation
        else done s a in
      let (s1, a1, moves, h1) = and_then-done step _ h in
      let frame : (final step).reservations ≡ s.reservations = ground (
        arith,
        transition-frame (λ rows _. rows ≡ s.reservations) s a AppointmentStatus.confirmed none
            HistoryReason.reservation_expiry_paid_reconciliation refl,
      ) in
      let kept : s1.reservations ≡ s.reservations =
        sym (ap (λ (o : Outcome Store Appointment). (final o).reservations) moves) ∙ frame in
      (
        consumed current,
        (λ _. (refl, refl, refl)),
        sym (ap (λ (t : Store). t.reservations) (done-state h1))
            ∙ ap (change (λ row. row.id == r.id) (consumed current)) kept,
      )
    where
      consumed : ℕ → BookingReservation → BookingReservation
      consumed current row = record row {
        status = ReservationStatus.consumed;
        consumed_at = some current;
      }

  expire_hold-IsClosed :
      (s : Store) (r : BookingReservation) (w : AvailabilityWindow)
      (appointment : Option Appointment) (current : ℕ) {s' : Store}
      {action : ReservationExpiryAction}
      → expire_hold business_id s r w appointment current ≡ done s' action
      → IsClosed s r.id s'
  unfolding expire_hold IsClosed
  expire_hold-IsClosed s r w appointment current {s'} h =
      let (s1, appointment1, expires, h1) =
        and_then-done (expire_appointment business_id s appointment current) _ h in
      let (_, _, h2) =
        attempt-done s1 (ensure_reservation_transition r.status ReservationStatus.expired) _ h1 in
      let frame =
        expire_appointment-frame (λ rows _. rows ≡ s.reservations) business_id s appointment current
          refl in
      let kept : s1.reservations ≡ s.reservations =
        sym (ap (λ (o : Outcome Store (Option Appointment)). (final o).reservations) expires)
        ∙ frame in
      let end : s'.reservations
          ≡ change (λ row. row.id == r.id) (cancelled current) s1.reservations =
        ground (arith, done-state h2) in
      (
        cancelled current,
        (λ _. (refl, refl, refl)),
        end ∙ ap (change (λ row. row.id == r.id) (cancelled current)) kept,
      )
    where
      cancelled : ℕ → BookingReservation → BookingReservation
      cancelled current row = record row {
        status = ReservationStatus.expired;
        cancelled_at = some current;
      }

  settle_claimed-IsClosed :
      (s : Store) (r : BookingReservation) (w : AvailabilityWindow)
      (appointment : Option Appointment) (current : ℕ) {s' : Store}
      {action : ReservationExpiryAction}
      → settle_claimed business_id s r w appointment current ≡ done s' action
      → IsClosed s r.id s'
  unfolding settle_claimed
  settle_claimed-IsClosed s r w none current h = expire_hold-IsClosed s r w none current h
  settle_claimed-IsClosed s r w (some a) current h =
      elim (Bool-cases (must_reconcile_as_paid business_id s a)) [
        | inl paid ↦ reconcile-IsClosed s r a current (rw paid at h)
        | inr unpaid ↦ expire_hold-IsClosed s r w (some a) current (rw unpaid at h)
      ]

  -- A hold that the worker finished does not stay active, and no other hold changes.
  pub expire_claimed-IsClosed :
      (s : Store) (r : BookingReservation) (now : Datetime) {s' : Store}
      {action : ReservationExpiryAction}
      → expire_claimed business_id s r now ≡ done s' action
      → IsClosed s r.id s'
  unfolding expire_claimed
  expire_claimed-IsClosed s r now h =
      let (current, _, h1) = attempt-done s (require_aware now) _ h in
      let ((w, appointment), _, h2) = attempt-done s (check_expiry business_id s r current) _ h1 in
      settle_claimed-IsClosed s r w appointment current h2
