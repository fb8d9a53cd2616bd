-- ===== src/Reservations/Replay.antt =====
-- `ReservationService.consume` and `ReservationService.create`: what a call that returned found,
-- and what a repeated call does.
use lanrouge_nails_bot.Base.{
  sym, not, ◌&&◌, subst, ℕ, ◌≡◌, true, false, Option, some, ◌⊎◌, inl, inr, Bool-cases, arith,
}
use lanrouge_nails_bot.Enums.{
  ◌is◌, AppointmentStatus, appointment_status_enum, ReservationStatus, reservation_status_enum,
  contains,
}
use lanrouge_nails_bot.Time.{require_aware, Datetime, aware}
use lanrouge_nails_bot.Payments.Records.{
  and_then-done, done-value, done-state, attempt-done, is_id, done,
}
use lanrouge_nails_bot.Reservations.Store.{
  get_latest_for_appointment, get_appointment_for_update, Appointment, BookingReservation, Store,
  get,
}
use lanrouge_nails_bot.Reservations.Consume.{
  confirm_appointment, check_consumption, consume_hold, consume,
}
use lanrouge_nails_bot.Text.{Text}
use lanrouge_nails_bot.Reservations.Rules.{
  confirmed_appointment_statuses, pending_appointment_statuses, is_succeeded, required,
}
use lanrouge_nails_bot.Reservations.Consumed.{
  check_consumption-paid, check_consumption-found, consume_hold-AreConsumed, MayConfirm, IsStored,
}
use lanrouge_nails_bot.Reservations.Paid.{IsBooked}
use lanrouge_nails_bot.Reservations.Lookups.{reservation-id}

module _ (business_id : ℕ) where
  -- The hold that a call loaded, and what it did with it.
  consume-loaded :
      (s : Store) (reservation_id appointment_id : ℕ) (actor_user_id : Option ℕ)
      (correlation_id : Option Text) (now : Datetime) {s' : Store} {r' : BookingReservation}
      → consume business_id s reservation_id appointment_id actor_user_id correlation_id now
        ≡ done s' r'
      → (r : BookingReservation) × (current : ℕ) × (get business_id s reservation_id ≡ some r)
        × (((r.status is ReservationStatus.consumed ≡ true)
              × (is_id r.appointment_id appointment_id ≡ true)
              × (s ≡ s')
              × (r ≡ r'))
            ⊎ ((r.status is ReservationStatus.consumed ≡ false)
                × (consume_hold business_id s r appointment_id actor_user_id correlation_id current
                    ≡ done s' r')))
  unfolding consume
  consume-loaded s reservation_id appointment_id actor_user_id correlation_id now h =
      let (current, _, h1) = attempt-done s (require_aware now) _ h in
      let (r, loaded, h2) = attempt-done s (required (get business_id s reservation_id)) _ h1 in
      let found : get business_id s reservation_id ≡ some r = ground arith in
      elim (Bool-cases (r.status is ReservationStatus.consumed)) [
        | inl before ↦ elim (Bool-cases (is_id r.appointment_id appointment_id)) [
          | inl same ↦
              let h3 : done s r ≡ done _ _ = rw (before, same) at h2 in
              (r, current, found, inl (before, same, done-state h3, done-value h3))
          | inr other ↦ ground arith
        ]
        | inr fresh ↦ (r, current, found, inr (fresh, rw fresh at h2))
      ]

  is_consumed :
      (status : ReservationStatus)
      → status is ReservationStatus.consumed ≡ true
      → status ≡ ReservationStatus.consumed
  is_consumed status h = ground arith

  is_id-some :
      (found : Option ℕ) (expected : ℕ) → is_id found expected ≡ true → found ≡ some expected
  is_id-some found expected h = ground arith

  consume-IsStored :
      (s : Store) (reservation_id appointment_id : ℕ) (actor_user_id : Option ℕ)
      (correlation_id : Option Text) (now : Datetime) {s' : Store} {r' : BookingReservation}
      → consume business_id s reservation_id appointment_id actor_user_id correlation_id now
        ≡ done s' r'
      → IsStored business_id s' reservation_id appointment_id r'
  consume-IsStored s reservation_id appointment_id actor_user_id correlation_id now {s'} {r'} h =
      let (r, current, found, how) =
        consume-loaded s reservation_id appointment_id actor_user_id correlation_id now h in
      let same_id = reservation-id business_id s reservation_id found in
      elim how [
        | inl (before, same, unchanged, returned) ↦
            subst (λ t. IsStored business_id t reservation_id appointment_id r') unchanged
              (subst (IsStored business_id s reservation_id appointment_id) returned (
                found,
                is_consumed r.status before,
                is_id-some r.appointment_id appointment_id same,
              ))
        | inr (_, consumes) ↦
            let found' = subst (λ id. get business_id s id ≡ some r) (sym same_id) found in
            let stored =
              consume_hold-AreConsumed business_id s r appointment_id actor_user_id correlation_id
                current found' consumes in
            subst (λ id. IsStored business_id s' id appointment_id r') same_id stored.1
      ]

  MayConfirm-cases :
      (s : Store) (a : Appointment)
      → a.status is AppointmentStatus.pending_payment
          && not (is_succeeded (get_latest_for_appointment business_id s a.id))
        ≡ false
      → (contains a.status pending_appointment_statuses ≡ true)
        ⊎ (contains a.status confirmed_appointment_statuses ≡ true)
      → MayConfirm business_id s a
  unfolding MayConfirm
  MayConfirm-cases s a paid (inl pending) =
      elim (Bool-cases (a.status is AppointmentStatus.pending_payment)) [
        | inl awaiting ↦ inr (inr (awaiting, ground arith))
        | inr manual ↦ inr (inl (ground arith))
      ]
  MayConfirm-cases s a paid (inr confirmed) = inl confirmed

  confirm_appointment-cases :
      (s : Store) (a : Appointment) (who : Option ℕ) {s' : Store}
      → confirm_appointment business_id s a who ≡ done s' tt
      → (contains a.status pending_appointment_statuses ≡ true)
        ⊎ (contains a.status confirmed_appointment_statuses ≡ true)
  unfolding confirm_appointment
  confirm_appointment-cases s a who h = ground arith

  consume_hold-MayConfirm :
      (s : Store) (r : BookingReservation) (appointment_id : ℕ) (actor_user_id : Option ℕ)
      (correlation_id : Option Text) (current : ℕ) {s' : Store} {r' : BookingReservation}
      → consume_hold business_id s r appointment_id actor_user_id correlation_id current
        ≡ done s' r'
      → (a : Appointment) × (get_appointment_for_update business_id s appointment_id ≡ some a)
        × MayConfirm business_id s a
  unfolding consume_hold
  consume_hold-MayConfirm s r appointment_id actor_user_id correlation_id current h =
      let (a, passed, h1) =
        attempt-done s (check_consumption business_id s r appointment_id current) _ h in
      let (_, _, confirms, _) =
        and_then-done (confirm_appointment business_id s a actor_user_id) _ h1 in
      (
        a,
        check_consumption-found business_id s r appointment_id current passed,
        MayConfirm-cases s a (check_consumption-paid business_id s r appointment_id current passed)
            (confirm_appointment-cases s a actor_user_id confirms),
      )

  -- A hold that is not consumed yet is consumed only for an appointment of the business that is
  -- confirmed already, that awaits a manual confirmation, or whose latest payment succeeded; and
  -- then the hold is consumed, the appointment confirmed and the window booked.
  pub consume-MayConfirm :
      (s : Store) (reservation_id appointment_id : ℕ) (actor_user_id : Option ℕ)
      (correlation_id : Option Text) (now : Datetime) {r : BookingReservation} {s' : Store}
      {r' : BookingReservation}
      → get business_id s reservation_id ≡ some r
      → r.status is ReservationStatus.consumed ≡ false
      → consume business_id s reservation_id appointment_id actor_user_id correlation_id now
        ≡ done s' r'
      → ((a : Appointment) × (get_appointment_for_update business_id s appointment_id ≡ some a)
          × MayConfirm business_id s a)
        × IsBooked business_id s' reservation_id appointment_id r.window_id
  consume-MayConfirm s reservation_id appointment_id actor_user_id correlation_id now {r} {s'} {r'}
        found fresh h =
      let (r1, current, found1, how) =
        consume-loaded s reservation_id appointment_id actor_user_id correlation_id now h in
      let loaded : r1 ≡ r = ground arith in
      elim how [
        | inl (before, _, _, _) ↦ ground (arith, loaded)
        | inr (_, consumes) ↦
            let here =
              subst
                (λ x.
                  consume_hold business_id s x appointment_id actor_user_id correlation_id current
                  ≡ done s' r')
                loaded consumes in
            let same_id = reservation-id business_id s reservation_id found in
            let found' = subst (λ id. get business_id s id ≡ some r) (sym same_id) found in
            let booked' =
              consume_hold-AreConsumed business_id s r appointment_id actor_user_id correlation_id
                current found' here in
            (
              consume_hold-MayConfirm s r appointment_id actor_user_id correlation_id current here,
              subst (λ id. IsBooked business_id s' id appointment_id r.window_id) same_id booked'.0,
            )
      ]

  -- A call of `consume` that returned can be repeated at any later time, by anyone: it returns the
  -- same hold and changes nothing.
  pub consume_twice :
      (s : Store) (reservation_id appointment_id : ℕ) (actor_user_id another : Option ℕ)
      (correlation_id other : Option Text) (now : Datetime) (later : ℕ) {s' : Store}
      {r' : BookingReservation}
      → consume business_id s reservation_id appointment_id actor_user_id correlation_id now
        ≡ done s' r'
      → consume business_id s' reservation_id appointment_id another other (aware later)
        ≡ done s' r'
  unfolding consume
  consume_twice s reservation_id appointment_id actor_user_id another correlation_id other now later
        {s'} {r'} h =
      let (stored, status, id) =
        consume-IsStored s reservation_id appointment_id actor_user_id correlation_id now h in
      ground arith
