-- ===== src/Reservations/Placed.antt =====
-- `ReservationService.create`: what a call that placed a hold found and leaves behind, and what a
-- repeated call does.
use lanrouge_nails_bot.Base.{
  List, subst, sym, ap, find, ◌+◌, change, ◌∷◌, Option-cases, ℕ, ◌≡◌, refl, Bool, true, false,
  Option, none, some, ◌==◌, ◌⊎◌, inl, inr, arith,
}
use lanrouge_nails_bot.Enums.{
  ◌is◌, appointment_status_enum, reservation_status_enum, AvailabilityWindowStatus,
  availability_window_status_enum,
}
use lanrouge_nails_bot.Errors.{ok}
use lanrouge_nails_bot.Time.{require_aware, minutes, Datetime, aware}
use lanrouge_nails_bot.Payments.Records.{done-state, done-value, attempt, attempt-done, done}
use lanrouge_nails_bot.Reservations.Store.{
  is_held, get_by_idempotency_key, get_active_for_window, get_window_for_update, AvailabilityWindow,
  BookingReservation, Appointment, Store,
}
use lanrouge_nails_bot.Reservations.Rules.{same_id, require_same_reservation, ReservationCreate}
use lanrouge_nails_bot.Reservations.Create.{
  new_reservation, set_reservation_expires_at, require_business, add, place_hold, create,
  check_new_hold,
}
use lanrouge_nails_bot.Text.{Text}
use lanrouge_nails_bot.Reservations.Moves.{check_new_hold-unheld}
use lanrouge_nails_bot.Text.Same.{same_text_refl}
use lanrouge_nails_bot.Reservations.Lookups.{window-changed}

-- What a repeated call compares: the other columns of the hold may have changed.
abbrev pub IsSameHold : (r r' : BookingReservation) → Type 0
IsSameHold r r' =
    (r'.client_id ≡ r.client_id)
    × (r'.staff_member_id ≡ r.staff_member_id)
    × (r'.window_id ≡ r.window_id)
    × (r'.service_id ≡ r.service_id)
    × (r'.appointment_id ≡ r.appointment_id)
    × (r'.token_digest ≡ r.token_digest)

IsSameHold-matches :
    (r r' : BookingReservation) (values : ReservationCreate) (digest : Text)
    → IsSameHold r r'
    → require_same_reservation r values digest ≡ ok tt
    → require_same_reservation r' values digest ≡ ok tt
unfolding require_same_reservation
IsSameHold-matches r r' values digest same h =
    let (client, staff, window, service, appointment, token) = same in
    rw (client, staff, window, service, appointment, token) h

module _ (business_id : ℕ) where
  -- The window was open and nothing held it; now it is reserved and the new hold holds it.
  unfoldable pub IsPlaced : Store → Store → ReservationCreate → BookingReservation → Type 0
  IsPlaced s s' values r =
      ((w : AvailabilityWindow) × (get_window_for_update business_id s values.window_id ≡ some w)
        × (w.staff_member_id ≡ values.staff_member_id)
        × (w.status is AvailabilityWindowStatus.open_ ≡ true)
        × (get_window_for_update business_id s' values.window_id
            ≡ some (record w { status = AvailabilityWindowStatus.reserved })))
      × (get_active_for_window business_id s values.window_id ≡ none)
      × (get_active_for_window business_id s' values.window_id ≡ some r)
      × (s'.reservations ≡ r ∷ s.reservations)
      × (s'.payments ≡ s.payments)

  check_new_hold-window :
      (s : Store) (values : ReservationCreate) {appointment : Option Appointment}
      → check_new_hold business_id s values ≡ ok appointment
      → (w : AvailabilityWindow) × (get_window_for_update business_id s values.window_id ≡ some w)
        × (w.staff_member_id ≡ values.staff_member_id)
        × (w.status is AvailabilityWindowStatus.open_ ≡ true)
  unfolding check_new_hold
  check_new_hold-window s values h =
      elim (Option-cases (get_window_for_update business_id s values.window_id)) [
        | inl none_found ↦ ground arith
        | inr (w, found) ↦ (w, found, ground arith, ground arith)
      ]

  -- What the mutations of `create` do to the windows and holds.
  place_hold-done :
      (s : Store) (values : ReservationCreate) (appointment : Option Appointment)
      (r : BookingReservation) {s' : Store} {result : BookingReservation × Bool}
      → place_hold business_id s values appointment r ≡ done s' result
      → (result ≡ (r, true))
        × (s'.reservations ≡ r ∷ s.reservations)
        × (s'.windows
            ≡ change
                (λ w. w.id == values.window_id)
                (λ w. record w { status = AvailabilityWindowStatus.reserved })
                s.windows)
        × (s'.payments ≡ s.payments)
  unfolding place_hold add set_reservation_expires_at
  place_hold-done s values none r h = ground arith
  place_hold-done s values (some a) r h = ground arith

  -- The branch of `create` that a call took.
  create-cases :
      (s : Store) (values : ReservationCreate) (digest : Text) (new_id : ℕ) (now : Datetime)
      {s' : Store} {r : BookingReservation} {is_new : Bool}
      → create business_id s values digest new_id now ≡ done s' (r, is_new)
      → (values.business_id ≡ business_id)
        × (((is_new ≡ false)
              × (s ≡ s')
              × (get_by_idempotency_key business_id s values.idempotency_key ≡ some r)
              × (require_same_reservation r values digest ≡ ok tt))
            ⊎ ((current : ℕ) × (appointment : Option Appointment) × (check_new_hold business_id s
                    values
                  ≡ ok appointment)
                × (place_hold business_id s values appointment
                      (new_reservation values digest new_id (current + minutes values.ttl_minutes))
                    ≡ done s' (r, is_new))))
  unfolding create require_business
  create-cases s values digest new_id now {s'} {r} {is_new} h =
      let (current, _, h1) = attempt-done s (require_aware now) _ h in
      let (_, checked, h2) =
        attempt-done s (require_business business_id values.business_id) _ h1 in
      let own : values.business_id ≡ business_id = ground (arith, checked) in
      (
        own,
        elim (Option-cases (get_by_idempotency_key business_id s values.idempotency_key)) [
          | inl new ↦
              let h3 : attempt s (check_new_hold business_id s values) (λ appointment.
                place_hold business_id s values appointment
                  (new_reservation values digest new_id (current + minutes values.ttl_minutes)))
                  ≡ done s' (r, is_new) =
                rw new at h2 in
              let (appointment, passed, h4) =
                attempt-done s (check_new_hold business_id s values) _ h3 in
              inr (current, appointment, passed, h4)
          | inr (existing, known) ↦
              let h3 : attempt s (require_same_reservation existing values digest)
                    (λ _. done s (existing, false))
                  ≡ done s' (r, is_new) =
                rw known at h2 in
              let (_, same, h4) =
                attempt-done s (require_same_reservation existing values digest) _ h3 in
              let result : (existing, false) ≡ (r, is_new) = done-value h4 in
              let it : existing ≡ r = ap (λ x. x.0) result in
              inl (
                sym (ap (λ x. x.1) result),
                done-state h4,
                rw it at known,
                subst (λ x. require_same_reservation x values digest ≡ ok tt) it same,
              )
        ],
      )

  placed-active :
      (s : Store) (values : ReservationCreate) (digest : Text) (new_id expires_at : ℕ)
      → values.business_id ≡ business_id
      → let r = new_reservation values digest new_id expires_at in
        find (is_held business_id values.window_id) (r ∷ s.reservations) ≡ some r
  unfolding new_reservation is_held
  placed-active s values digest new_id expires_at own = ground arith

  -- A call of `create` that placed a hold found its window in the business, of the staff member,
  -- open and held by nothing; it leaves the window reserved and held by the new hold alone, keeps
  -- every other hold, and changes no payment.
  pub create-IsPlaced :
      (s : Store) (values : ReservationCreate) (digest : Text) (new_id : ℕ) (now : Datetime)
      {s' : Store} {r : BookingReservation}
      → create business_id s values digest new_id now ≡ done s' (r, true)
      → IsPlaced s s' values r
  unfolding IsPlaced get_active_for_window
  create-IsPlaced s values digest new_id now {s'} {r} h =
      let (own, how) = create-cases s values digest new_id now h in
      elim how [
        | inl (old, _, _, _) ↦ ground arith
        | inr (current, appointment, passed, places) ↦
            let r0 = new_reservation values digest new_id (current + minutes values.ttl_minutes) in
            let (result, reservations, windows, payments) =
              place_hold-done s values appointment r0 places in
            let it : r ≡ r0 = ap (λ x. x.0) result in
            let (w, found, staff, opened) = check_new_hold-window s values passed in
            (
              (
                w,
                found,
                staff,
                opened,
                window-changed business_id s s' values.window_id AvailabilityWindowStatus.reserved
                    windows found,
              ),
              check_new_hold-unheld business_id s values passed,
              subst (λ rows. find (is_held business_id values.window_id) rows ≡ some r)
                  (sym reservations)
                  (subst
                    (λ x.
                      find (is_held business_id values.window_id) (r0 ∷ s.reservations) ≡ some x)
                    (sym it)
                    (placed-active s values digest new_id (current + minutes values.ttl_minutes)
                      own)),
              subst (λ x. s'.reservations ≡ x ∷ s.reservations) (sym it) reservations,
              payments,
            )
      ]

  -- A call of `create` on a key that is known.
  create-known :
      (s : Store) (values : ReservationCreate) (digest : Text) (another_id later : ℕ)
      {r : BookingReservation}
      → values.business_id ≡ business_id
      → get_by_idempotency_key business_id s values.idempotency_key ≡ some r
      → require_same_reservation r values digest ≡ ok tt
      → create business_id s values digest another_id (aware later) ≡ done s (r, false)
  unfolding create require_business
  create-known s values digest another_id later own known same = ground arith

  placed-key :
      (s : Store) (values : ReservationCreate) (r : BookingReservation)
      (rows : List BookingReservation)
      → r.business_id ≡ business_id
      → r.idempotency_key ≡ values.idempotency_key
      → s.reservations ≡ r ∷ rows
      → get_by_idempotency_key business_id s values.idempotency_key ≡ some r
  unfolding get_by_idempotency_key
  placed-key s values r rows own key first =
      rw first (ground (arith, own, key, same_text_refl values.idempotency_key))

  same_id_refl : (o : Option ℕ) → same_id o o ≡ true
  same_id_refl o = ground arith

  placed-same :
      (values : ReservationCreate) (digest : Text) (new_id expires_at : ℕ)
      → require_same_reservation (new_reservation values digest new_id expires_at) values digest
        ≡ ok tt
  unfolding require_same_reservation new_reservation
  placed-same values digest new_id expires_at =
      ground (arith, same_text_refl digest, same_id_refl values.appointment_id)

  -- A call that returned leaves its key with the hold that it returned.
  create-remembers :
      (s : Store) (values : ReservationCreate) (digest : Text) (new_id : ℕ) (now : Datetime)
      {s' : Store} {r : BookingReservation} {is_new : Bool}
      → create business_id s values digest new_id now ≡ done s' (r, is_new)
      → (values.business_id ≡ business_id)
        × (get_by_idempotency_key business_id s' values.idempotency_key ≡ some r)
        × (require_same_reservation r values digest ≡ ok tt)
  unfolding new_reservation
  create-remembers s values digest new_id now {s'} {r} h =
      let (own, how) = create-cases s values digest new_id now h in
      elim how [
        | inl (_, same, known, matches) ↦ (
          own,
          subst (λ t. get_by_idempotency_key business_id t values.idempotency_key ≡ some r) same
              known,
          matches,
        )
        | inr (current, appointment, passed, places) ↦
            let expires_at = current + minutes values.ttl_minutes in
            let r0 = new_reservation values digest new_id expires_at in
            let (result, reservations, _, _) = place_hold-done s values appointment r0 places in
            let it : r ≡ r0 = ap (λ x. x.0) result in
            let known : get_by_idempotency_key business_id s' values.idempotency_key ≡ some r0 =
              placed-key s' values r0 s.reservations own refl reservations in
            (
              own,
              rw it known,
              subst (λ x. require_same_reservation x values digest ≡ ok tt) (sym it)
                  (placed-same values digest new_id expires_at),
            )
      ]

  -- A call of `create` that returned can be repeated at any clock with the same values and token, in
  -- the store that it left, and in any store where the key finds a hold with the same client, staff
  -- member, window, service, appointment and token, whatever became of its other columns: it returns
  -- that hold, not as a new one, and changes nothing.
  pub create_twice :
      (s : Store) (values : ReservationCreate) (digest : Text) (new_id another_id : ℕ)
      (now : Datetime) (later : ℕ) {s' : Store} {r : BookingReservation} {is_new : Bool} (t : Store)
      (r' : BookingReservation)
      → create business_id s values digest new_id now ≡ done s' (r, is_new)
      → ((t ≡ s') × (r' ≡ r))
        ⊎ ((get_by_idempotency_key business_id t values.idempotency_key ≡ some r')
            × IsSameHold r r')
      → create business_id t values digest another_id (aware later) ≡ done t (r', false)
  create_twice s values digest new_id another_id now later {s'} {r} t r' h how =
      let (own, known, matches) = create-remembers s values digest new_id now h in
      elim how [
        | inl (same, it) ↦
            rw (same, it) (create-known s' values digest another_id later own known matches)
        | inr (found, same) ↦
            create-known t values digest another_id later own found
              (IsSameHold-matches r r' values digest same matches)
      ]
