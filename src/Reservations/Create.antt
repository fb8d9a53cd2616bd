-- ===== src/Reservations/Create.antt =====
-- app/services/reservation_service.py, `ReservationService.create`. `new_id` is the identifier that
-- the database gives to the new row.
use lanrouge_nails_bot.Base.{ℕ, ◌+◌, Bool, true, false, not, Option, none, some, ◌==◌, ◌∷◌}
use lanrouge_nails_bot.Enums.{
  AvailabilityWindowStatus, availability_window_status_enum, appointment_status_enum,
  ReservationStatus, ◌is◌, contains,
}
use lanrouge_nails_bot.Errors.{Result, ok, value_error, reservation_state, ◌>>=◌, ◌>>◌, raise_if}
use lanrouge_nails_bot.Text.{Text}
use lanrouge_nails_bot.Time.{Datetime, minutes, require_aware}
use lanrouge_nails_bot.Payments.Records.{Outcome, done, attempt, and_then}
use lanrouge_nails_bot.Reservations.Store.{
  Appointment, BookingReservation, AuditChanges, Store, get_by_idempotency_key,
  get_active_for_window, get_window_for_update, get_appointment_for_update, set_window,
  update_appointment, add_audit,
}
use lanrouge_nails_bot.Reservations.Rules.{
  ReservationCreate, required, require_same_reservation, require_appointment_matches,
  pending_appointment_statuses,
}

abbrev pub is_some : {A : Type 0} → Option A → Bool
is_some none = false
is_some (some _) = true

-- The row that `create` assembles.
unfoldable pub new_reservation :
    ReservationCreate → (digest : Text) → (new_id expires_at : ℕ) → BookingReservation
new_reservation values digest new_id expires_at = record {
  id = new_id;
  business_id = values.business_id;
  client_id = values.client_id;
  staff_member_id = values.staff_member_id;
  window_id = values.window_id;
  service_id = values.service_id;
  appointment_id = values.appointment_id;
  token_digest = digest;
  idempotency_key = values.idempotency_key;
  status = ReservationStatus.active;
  expires_at = expires_at;
  consumed_at = none;
  cancelled_at = none;
  correlation_id = values.correlation_id;
}

-- `if appointment is not None: appointment.reservation_expires_at = expires_at`
unfoldable pub set_reservation_expires_at : Option Appointment → ℕ → Store → Store
set_reservation_expires_at none expires_at s = s
set_reservation_expires_at (some a) expires_at s =
    update_appointment a.id (λ row. record row { reservation_expires_at = some expires_at }) s

module _ (business_id : ℕ) where
  -- `_require_business`
  unfoldable pub require_business : ℕ → Result Unit
  require_business other = raise_if (not (other == business_id)) reservation_state

  -- The appointment of a hold that is asked for, which awaits a payment or a confirmation.
  unfoldable pub pending_appointment :
      Store → ReservationCreate → Option ℕ → Result (Option Appointment)
  unfolding require_appointment_matches get_appointment_for_update
  pending_appointment s values none = ok none
  pending_appointment s values (some appointment_id) =
      required (get_appointment_for_update business_id s appointment_id) >>= λ a.
      require_appointment_matches a values
      >> raise_if (not (contains a.status pending_appointment_statuses)) reservation_state
      >> ok (some a)

  -- The tests of `create` on a new key, which mutate nothing.
  unfoldable pub check_new_hold : Store → ReservationCreate → Result (Option Appointment)
  check_new_hold s values =
      required (get_window_for_update business_id s values.window_id) >>= λ window.
      raise_if (not (window.staff_member_id == values.staff_member_id)) reservation_state
      >> raise_if (not (window.status is AvailabilityWindowStatus.open_)) reservation_state
      >> raise_if (is_some (get_active_for_window business_id s values.window_id)) reservation_state
      >> pending_appointment s values values.appointment_id

  -- `ReservationRepository.add`
  unfoldable pub add : Store → BookingReservation → Outcome Store Unit
  add s reservation =
      attempt s (raise_if (not (reservation.business_id == business_id)) value_error)
        λ _. done (record s { reservations = reservation ∷ s.reservations }) tt

  -- The mutations of `create`.
  unfoldable pub place_hold :
      Store
      → ReservationCreate
      → Option Appointment
      → BookingReservation
      → Outcome Store (BookingReservation × Bool)
  unfolding add set_reservation_expires_at
  place_hold s values appointment reservation =
      let held = set_window values.window_id AvailabilityWindowStatus.reserved s in
      and_then
        (add (set_reservation_expires_at appointment reservation.expires_at held) reservation)
        λ added _.
          done
            (add_audit
              (record {
                actor_user_id = some values.client_id;
                entity_id = reservation.id;
                changes =
                    AuditChanges.created values.window_id values.appointment_id
                      ReservationStatus.active reservation.expires_at;
                correlation_id = values.correlation_id;
              })
              added)
            (reservation, true)

  unfoldable pub create :
      Store
      → ReservationCreate
      → (digest : Text) → (new_id : ℕ) → (now : Datetime)
      → Outcome Store (BookingReservation × Bool)
  unfolding require_business new_reservation
  create s values digest new_id now = attempt s (require_aware now) λ current.
      attempt s (require_business values.business_id) λ _.
        replay_or_place (get_by_idempotency_key business_id s values.idempotency_key)
          (new_reservation values digest new_id (current + minutes values.ttl_minutes))
    where
      replay_or_place :
          Option BookingReservation → BookingReservation → Outcome Store (BookingReservation × Bool)
      replay_or_place (some existing) reservation =
          attempt s (require_same_reservation existing values digest) λ _. done s (existing, false)
      replay_or_place none reservation =
          attempt s (check_new_hold s values)
            λ appointment. place_hold s values appointment reservation
