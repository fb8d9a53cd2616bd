-- ===== src/Reservations/Lookups.antt =====
-- What the repositories find after an update, and the identifiers of what they find.
use lanrouge_nails_bot.Base.{
  ℕ, ◌≡◌, refl, Bool, ◌&&◌, ◌==◌, Option, some, arith, find-test, find-change, change,
}
use lanrouge_nails_bot.Enums.{AvailabilityWindowStatus}
use lanrouge_nails_bot.Reservations.Store.{
  Store, AvailabilityWindow, Appointment, BookingReservation, get, is_reservation,
  get_window_for_update, get_appointment_for_update,
}

module _ (business_id : ℕ) where
  abbrev is_window : ℕ → AvailabilityWindow → Bool
  is_window window_id w = w.id == window_id && w.business_id == business_id

  abbrev is_appointment : ℕ → Appointment → Bool
  is_appointment appointment_id a = a.id == appointment_id && a.business_id == business_id

  pub reservation-id :
      (s : Store) (reservation_id : ℕ) {r : BookingReservation}
      → get business_id s reservation_id ≡ some r
      → r.id ≡ reservation_id
  unfolding get
  reservation-id s reservation_id h =
      let test = find-test (is_reservation business_id reservation_id) s.reservations h in
      ground (arith, test)

  pub window-id :
      (s : Store) (window_id : ℕ) {w : AvailabilityWindow}
      → get_window_for_update business_id s window_id ≡ some w
      → w.id ≡ window_id
  unfolding get_window_for_update
  window-id s window_id h =
      let test = find-test (is_window window_id) s.windows h in ground (arith, test)

  pub appointment-id :
      (s : Store) (appointment_id : ℕ) {a : Appointment}
      → get_appointment_for_update business_id s appointment_id ≡ some a
      → a.id ≡ appointment_id
  unfolding get_appointment_for_update
  appointment-id s appointment_id h =
      let test = find-test (is_appointment appointment_id) s.appointments h in ground (arith, test)

  -- A row under its new value, where the rows with its identifier changed.
  pub reservation-changed :
      (s s' : Store) (reservation_id : ℕ) (f : BookingReservation → BookingReservation)
      {r : BookingReservation}
      → ((row : BookingReservation)
          → is_reservation business_id reservation_id (f row)
            ≡ is_reservation business_id reservation_id row)
      → s'.reservations ≡ change (λ row. row.id == reservation_id) f s.reservations
      → get business_id s reservation_id ≡ some r
      → get business_id s' reservation_id ≡ some (f r)
  unfolding get
  reservation-changed s s' reservation_id f keeps same found =
      let test = find-test (is_reservation business_id reservation_id) s.reservations found in
      rw same (
        find-change (is_reservation business_id reservation_id) (λ row. row.id == reservation_id) f
          s.reservations keeps found (ground arith))

  pub window-changed :
      (s s' : Store) (window_id : ℕ) (status : AvailabilityWindowStatus) {w : AvailabilityWindow}
      → s'.windows
        ≡ change (λ row. row.id == window_id) (λ row. record row { status = status }) s.windows
      → get_window_for_update business_id s window_id ≡ some w
      → get_window_for_update business_id s' window_id ≡ some (record w { status = status })
  unfolding get_window_for_update
  window-changed s s' window_id status same found =
      let test = find-test (is_window window_id) s.windows found in
      rw same (
        find-change (is_window window_id) (λ row. row.id == window_id)
          (λ row. record row { status = status }) s.windows (λ _. refl) found (ground arith))

  pub appointment-changed :
      (s s' : Store) (appointment_id : ℕ) (f : Appointment → Appointment) {a : Appointment}
      → ((row : Appointment)
          → is_appointment appointment_id (f row) ≡ is_appointment appointment_id row)
      → s'.appointments ≡ change (λ row. row.id == appointment_id) f s.appointments
      → get_appointment_for_update business_id s appointment_id ≡ some a
      → get_appointment_for_update business_id s' appointment_id ≡ some (f a)
  unfolding get_appointment_for_update
  appointment-changed s s' appointment_id f keeps same found =
      let test = find-test (is_appointment appointment_id) s.appointments found in
      rw same (
        find-change (is_appointment appointment_id) (λ row. row.id == appointment_id) f
          s.appointments keeps found (ground arith))

  -- A row where the rows are the same.
  pub reservation-same :
      (s s' : Store) (reservation_id : ℕ) {o : Option BookingReservation}
      → s'.reservations ≡ s.reservations
      → get business_id s reservation_id ≡ o
      → get business_id s' reservation_id ≡ o
  unfolding get
  reservation-same s s' reservation_id same found = rw same found

  pub window-same :
      (s s' : Store) (window_id : ℕ) {o : Option AvailabilityWindow}
      → s'.windows ≡ s.windows
      → get_window_for_update business_id s window_id ≡ o
      → get_window_for_update business_id s' window_id ≡ o
  unfolding get_window_for_update
  window-same s s' window_id same found = rw same found

  pub appointment-same :
      (s s' : Store) (appointment_id : ℕ) {o : Option Appointment}
      → s'.appointments ≡ s.appointments
      → get_appointment_for_update business_id s appointment_id ≡ o
      → get_appointment_for_update business_id s' appointment_id ≡ o
  unfolding get_appointment_for_update
  appointment-same s s' appointment_id same found = rw same found
