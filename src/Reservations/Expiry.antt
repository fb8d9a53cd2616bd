-- ===== src/Reservations/Expiry.antt =====
-- Expiring or repairing a hold keeps the windows of the business from being held twice, whichever
-- way it ends.
use lanrouge_nails_bot.Base.{
  ℕ, ◌≡◌, refl, true, Option, none, some, ◌==◌, inl, inr, Bool-cases, if◌then◌else◌, arith, find,
  List,
}
use lanrouge_nails_bot.Enums.{
  payment_status_enum, AppointmentStatus, appointment_status_enum, AvailabilityWindowStatus,
  availability_window_status_enum, ReservationStatus, reservation_status_enum, contains,
}
use lanrouge_nails_bot.Errors.{ok}
use lanrouge_nails_bot.Time.{Datetime, require_aware}
use lanrouge_nails_bot.Lifecycle.Reservations.{ensure_reservation_transition}
use lanrouge_nails_bot.Payments.Records.{
  and_then-leads, Outcome, done, final, attempt-holds, and_then-holds,
}
use lanrouge_nails_bot.Reservations.Store.{
  is_reservation, holding_statuses, get_window_for_update, update_reservation, Appointment,
  AvailabilityWindow, BookingReservation, HistoryReason, Store, get,
}
use lanrouge_nails_bot.Reservations.Rules.{pending_appointment_statuses, transition_appointment}
use lanrouge_nails_bot.Reservations.Expire.{
  is_released, must_reconcile_as_paid, settle_claimed, check_expiry, reconcile, expire_appointment,
  expire_hold, expire_claimed,
}
use lanrouge_nails_bot.Reservations.Exclusive.{
  AreExclusive, IsExclusive, IsExclusive-close, IsExclusive-release, IsExclusive-take,
}
use lanrouge_nails_bot.Reservations.Moves.{transition-IsExclusive}
use lanrouge_nails_bot.Reservations.Frames.{expire_appointment-frame}
use lanrouge_nails_bot.Reservations.Lookups.{window-id}

module _ (business_id : ℕ) where
  reconcile-IsExclusive :
      (s : Store) (r : BookingReservation) (a : Appointment) (current : ℕ)
      → IsExclusive business_id s
      → IsExclusive business_id (final (reconcile business_id s r a current))
  unfolding reconcile
  reconcile-IsExclusive s r a current h =
      let confirm =
        transition_appointment s a AppointmentStatus.confirmed none
          HistoryReason.reservation_expiry_paid_reconciliation in
      let step : Outcome Store Appointment =
        if contains a.status pending_appointment_statuses then confirm else done s a in
      let moved : IsExclusive business_id (final step) = ground (
        arith,
        transition-IsExclusive business_id s a AppointmentStatus.confirmed none
            HistoryReason.reservation_expiry_paid_reconciliation h,
      ) in
      and_then-holds (IsExclusive business_id) step _ moved λ confirmed _ _ kept.
        IsExclusive-take business_id
          (update_reservation r.id
            (λ row. record row { status = ReservationStatus.consumed; consumed_at = some current })
            confirmed)
          r.window_id AvailabilityWindowStatus.booked refl
          (IsExclusive-close business_id confirmed (λ row. row.id == r.id) _ (λ _. refl) kept)

  -- The windows and holds before an expiry: `r` is the row that was claimed.
  abbrev Claimed : BookingReservation → List BookingReservation → List AvailabilityWindow → Type 0
  Claimed r rows ws =
      AreExclusive business_id rows ws × (find (is_reservation business_id r.id) rows ≡ some r)

  expire_hold-IsExclusive :
      (s : Store) (r : BookingReservation) (window : AvailabilityWindow)
      (appointment : Option Appointment) (current : ℕ)
      → window.id ≡ r.window_id
      → contains r.status holding_statuses ≡ true
      → Claimed r s.reservations s.windows
      → IsExclusive business_id (final (expire_hold business_id s r window appointment current))
  unfolding expire_hold get
  expire_hold-IsExclusive s r window appointment current same live h =
      and_then-leads (λ s'. Claimed r s'.reservations s'.windows) (IsExclusive business_id)
        (expire_appointment business_id s appointment current) _ (λ _ kept. kept.0)
        (expire_appointment-frame (Claimed r) business_id s appointment current h)
        λ moved appointment' _ kept.
          attempt-holds (IsExclusive business_id) moved
            (ensure_reservation_transition r.status ReservationStatus.expired) _ kept.0
            λ _ _. elim (Bool-cases (is_released appointment' window)) [
              | inl released ↦ rw released (
                  rw same (
                    IsExclusive-release business_id moved r (cancelled current) (λ _. refl) kept.1
                      live kept.0))
              | inr held ↦ rw held (
                  IsExclusive-close business_id moved (λ row. row.id == r.id) (cancelled current)
                    (λ _. refl) kept.0)
            ]
    where
      cancelled : ℕ → BookingReservation → BookingReservation
      cancelled current row = record row {
        status = ReservationStatus.expired;
        cancelled_at = some current;
      }

  pub check_expiry-window :
      (s : Store) (r : BookingReservation) (current : ℕ) {window : AvailabilityWindow}
      {appointment : Option Appointment}
      → check_expiry business_id s r current ≡ ok (window, appointment)
      → get_window_for_update business_id s r.window_id ≡ some window
  unfolding check_expiry
  check_expiry-window s r current h = ground arith

  pub check_expiry-live :
      (s : Store) (r : BookingReservation) (current : ℕ)
      {found : AvailabilityWindow × Option Appointment}
      → check_expiry business_id s r current ≡ ok found
      → contains r.status holding_statuses ≡ true
  unfolding check_expiry
  check_expiry-live s r current h = ground arith

  pub check_expiry-active :
      (s : Store) (r : BookingReservation) (current : ℕ)
      {found : AvailabilityWindow × Option Appointment}
      → check_expiry business_id s r current ≡ ok found
      → ensure_reservation_transition r.status ReservationStatus.expired ≡ ok tt
  unfolding check_expiry ensure_reservation_transition
  check_expiry-active s r current h = ground arith

  settle-IsExclusive :
      (s : Store) (r : BookingReservation) (current : ℕ)
      → get business_id s r.id ≡ some r
      → IsExclusive business_id s
      → (window : AvailabilityWindow) (appointment : Option Appointment)
      → check_expiry business_id s r current ≡ ok (window, appointment)
      → IsExclusive business_id (final (settle_claimed business_id s r window appointment current))
  unfolding settle_claimed get
  settle-IsExclusive s r current found h window none checked =
      expire_hold-IsExclusive s r window none current
        (window-id business_id s r.window_id (check_expiry-window s r current checked))
        (check_expiry-live s r current checked) (h, found)
  settle-IsExclusive s r current found h window (some a) checked =
      elim (Bool-cases (must_reconcile_as_paid business_id s a)) [
        | inl paid ↦ rw paid (reconcile-IsExclusive s r a current h)
        | inr unpaid ↦ rw unpaid (
            expire_hold-IsExclusive s r window (some a) current
              (window-id business_id s r.window_id (check_expiry-window s r current checked))
              (check_expiry-live s r current checked) (h, found))
      ]

  pub expire_claimed-IsExclusive :
      (s : Store) (r : BookingReservation) (now : Datetime)
      → get business_id s r.id ≡ some r
      → IsExclusive business_id s
      → IsExclusive business_id (final (expire_claimed business_id s r now))
  unfolding expire_claimed
  expire_claimed-IsExclusive s r now found h =
      attempt-holds (IsExclusive business_id) s (require_aware now) _ h λ current _.
        attempt-holds (IsExclusive business_id) s (check_expiry business_id s r current) _ h
          (λ (window, appointment). settle-IsExclusive s r current found h window appointment)
