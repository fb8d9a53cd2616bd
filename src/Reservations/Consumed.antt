-- ===== src/Reservations/Consumed.antt =====
-- What a call of `consume` that returned found, and leaves behind.
use lanrouge_nails_bot.Base.{
  find-change, sym, find-test, subst, not, ◌&&◌, Option-cases, ℕ, ◌≡◌, refl, true, false, Option,
  some, ◌==◌, ◌⊎◌, inl, inr, Bool-cases, arith,
}
use lanrouge_nails_bot.Enums.{
  ◌is◌, AppointmentStatus, appointment_status_enum, ReservationStatus, contains,
}
use lanrouge_nails_bot.Errors.{ok}
use lanrouge_nails_bot.Payments.Records.{done-value, done-state, and_then-done, attempt-done, done}
use lanrouge_nails_bot.Reservations.Store.{
  is_reservation, add_audit, AuditChanges, AuditEvent, HistoryReason, get_latest_for_appointment,
  get_window_for_update, get_appointment_for_update, BookingReservation, AvailabilityWindow,
  Appointment, Store, get,
}
use lanrouge_nails_bot.Reservations.Consume.{
  own_or, mark_consumed, consume_hold, require_taken_window, confirm_appointment, check_consumption,
}
use lanrouge_nails_bot.Reservations.Rules.{
  pending_appointment_statuses, is_succeeded, confirmed_appointment_statuses,
}
use lanrouge_nails_bot.Reservations.Paid.{marked-IsBooked, audited-IsBooked, IsBooked, moved_on}
use lanrouge_nails_bot.Reservations.Frames.{pending-confirmed}
use lanrouge_nails_bot.Text.{Text}
use lanrouge_nails_bot.Reservations.Lookups.{appointment-id}

module _ (business_id : ℕ) where
  -- The appointment is confirmed already, or was approved by hand, or is paid.
  unfoldable pub MayConfirm : Store → Appointment → Type 0
  MayConfirm s a =
      (contains a.status confirmed_appointment_statuses ≡ true)
      ⊎ (a.status is AppointmentStatus.pending_manual_confirmation ≡ true)
      ⊎ ((a.status is AppointmentStatus.pending_payment ≡ true)
          × (is_succeeded (get_latest_for_appointment business_id s a.id) ≡ true))

  -- The appointment that the tests let through.
  pub check_consumption-found :
      (s : Store) (r : BookingReservation) (appointment_id current : ℕ) {a : Appointment}
      → check_consumption business_id s r appointment_id current ≡ ok a
      → get_appointment_for_update business_id s appointment_id ≡ some a
  unfolding check_consumption
  check_consumption-found s r appointment_id current h = ground arith

  pub check_consumption-paid :
      (s : Store) (r : BookingReservation) (appointment_id current : ℕ) {a : Appointment}
      → check_consumption business_id s r appointment_id current ≡ ok a
      → a.status is AppointmentStatus.pending_payment
          && not (is_succeeded (get_latest_for_appointment business_id s a.id))
        ≡ false
  unfolding check_consumption
  check_consumption-paid s r appointment_id current h = ground arith

  require_taken_window-found :
      (s : Store) (window_id : ℕ)
      → require_taken_window business_id s window_id ≡ ok tt
      → (w : AvailabilityWindow) × (get_window_for_update business_id s window_id ≡ some w)
  unfolding require_taken_window
  require_taken_window-found s window_id h =
      elim (Option-cases (get_window_for_update business_id s window_id)) [
        | inl none_found ↦ ground arith
        | inr found ↦ found
      ]

  -- The appointment after its confirmation, and what the confirmation leaves alone.
  abbrev Confirmed : Store → Appointment → Store → Type 0
  Confirmed s a s' =
      (a' : Appointment) × (get_appointment_for_update business_id s' a.id ≡ some a')
      × (contains a'.status confirmed_appointment_statuses ≡ true)
      × (s'.reservations ≡ s.reservations)
      × (s'.windows ≡ s.windows)

  confirm_appointment-Confirmed :
      (s : Store) (a : Appointment) (who : Option ℕ) {s' : Store}
      → get_appointment_for_update business_id s a.id ≡ some a
      → confirm_appointment business_id s a who ≡ done s' tt
      → Confirmed s a s'
  unfolding confirm_appointment
  confirm_appointment-Confirmed s a who {s'} found h =
      elim (Bool-cases (contains a.status pending_appointment_statuses)) [
        | inl pending ↦
            let (s1, moves, found', reservations, windows, _) =
              moved_on business_id s a AppointmentStatus.confirmed who
                HistoryReason.reservation_consumed found (pending-confirmed a.status pending) in
            let same : s1 ≡ s' = ground (arith, moves) in
            subst (Confirmed s a) same (
              record a { status = AppointmentStatus.confirmed },
              found',
              refl,
              reservations,
              windows,
            )
        | inr settled ↦
            let same : (s ≡ s') × (contains a.status confirmed_appointment_statuses ≡ true) =
              ground arith in
            subst (Confirmed s a) same.0 (a, found, same.1, refl, refl)
      ]

  -- The hold that a call stored, and returned.
  abbrev pub IsStored : Store → (reservation_id appointment_id : ℕ) → BookingReservation → Type 0
  IsStored s reservation_id appointment_id r =
      (get business_id s reservation_id ≡ some r)
      × (r.status ≡ ReservationStatus.consumed)
      × (r.appointment_id ≡ some appointment_id)

  abbrev pub AreConsumed :
      Store → BookingReservation → (appointment_id : ℕ) → BookingReservation → Type 0
  AreConsumed s r appointment_id r' =
      IsBooked business_id s r.id appointment_id r.window_id × IsStored s r.id appointment_id r'

  mark_consumed-AreConsumed :
      (s s1 : Store) (r : BookingReservation) (a : Appointment) {w : AvailabilityWindow}
      (current : ℕ) (event : AuditEvent)
      → get business_id s r.id ≡ some r
      → Confirmed s a s1
      → get_window_for_update business_id s1 r.window_id ≡ some w
      → AreConsumed (add_audit event (mark_consumed s1 r a.id current)) r a.id (record r {
        appointment_id = some a.id;
        status = ReservationStatus.consumed;
        consumed_at = some current;
      })
  unfolding mark_consumed get
  mark_consumed-AreConsumed s s1 r a {w} current event found (a', found', confirmed, same, _)
        window =
      let consumed : BookingReservation → BookingReservation = λ row. record row {
        appointment_id = some a.id;
        status = ReservationStatus.consumed;
        consumed_at = some current;
      } in
      let found1 : get business_id s1 r.id ≡ some r = rw same found in
      let test = find-test (is_reservation business_id r.id) s.reservations found in
      (
        audited-IsBooked business_id event _ r.id a.id r.window_id (
            marked-IsBooked business_id s1 consumed r.id a.id r.window_id (λ _ _. refl) (λ _. refl)
              found1 found' confirmed window),
        (
          find-change (is_reservation business_id r.id) (λ row. row.id == r.id) consumed
              s1.reservations (λ _. refl) found1 (ground arith),
          refl,
          refl,
        ),
      )

  pub consume_hold-AreConsumed :
      (s : Store) (r : BookingReservation) (appointment_id : ℕ) (actor_user_id : Option ℕ)
      (correlation_id : Option Text) (current : ℕ) {s' : Store} {r' : BookingReservation}
      → get business_id s r.id ≡ some r
      → consume_hold business_id s r appointment_id actor_user_id correlation_id current
        ≡ done s' r'
      → AreConsumed s' r appointment_id r'
  unfolding consume_hold
  consume_hold-AreConsumed s r appointment_id actor_user_id correlation_id current {s'} {r'} found
        h =
      let (a, passed, h1) =
        attempt-done s (check_consumption business_id s r appointment_id current) _ h in
      let (s1, _, confirms, h2) =
        and_then-done (confirm_appointment business_id s a actor_user_id) _ h1 in
      let (_, taken, h3) = attempt-done s1 (require_taken_window business_id s1 r.window_id) _ h2 in
      let appointment = check_consumption-found s r appointment_id current passed in
      let same_id = appointment-id business_id s appointment_id appointment in
      let (w, window) = require_taken_window-found s1 r.window_id taken in
      let confirmed =
        confirm_appointment-Confirmed s a actor_user_id
          (subst (λ id. get_appointment_for_update business_id s id ≡ some a) (sym same_id)
            appointment)
          confirms in
      let consumed =
        mark_consumed-AreConsumed s s1 r a current
          (record {
            actor_user_id = actor_user_id;
            entity_id = r.id;
            changes = AuditChanges.consumed a.id ReservationStatus.consumed;
            correlation_id = own_or correlation_id r.correlation_id;
          })
          found confirmed window in
      subst (λ id. AreConsumed s' r id r') same_id
        (subst (λ t. AreConsumed t r a.id r') (done-state h3)
          (subst (AreConsumed _ r a.id) (done-value h3) consumed))
