-- ===== src/Reservations/Reported.antt =====
-- A client's report against the expiry of the hold, and against other holds of the window.
use lanrouge_nails_bot.Base.{
  change_first, sym, subst, find-change_first, inl, inr, ◌∙◌, ◌⊎◌, ℕ, ◌≡◌, refl, none, true, false,
  List, Option, some, arith, find, find-test, count-change_first,
}
use lanrouge_nails_bot.Enums.{ReservationStatus, reservation_status_enum}
use lanrouge_nails_bot.Errors.{Result, ok, ◌>>◌, >>=-eq-ok, reservation_state}
use lanrouge_nails_bot.Text.{Text}
use lanrouge_nails_bot.Time.{Datetime, aware, require_aware}
use lanrouge_nails_bot.Payments.Records.{raised}
use lanrouge_nails_bot.Reservations.Store.{
  NotificationJob, get_appointment_for_update, get_payment, Appointment, BookingReservation,
  PaymentRow, Store, get_active_for_appointment, is_active_for, is_expired, is_held,
}
use lanrouge_nails_bot.Reservations.Create.{require_business}
use lanrouge_nails_bot.Reservations.Expire.{expire_claimed, check_expiry}
use lanrouge_nails_bot.Reservations.Exclusive.{holds, IsExclusive, AreExclusive, IsFree-less}
use lanrouge_nails_bot.Reservations.Prepayment.{
  ManualReceiptDraft, submit_for_review, report_rows, locked_rows, check_owned, owned_appointment,
  still_there, found_hint, ManualPrepaymentOutcome, awaiting_review, locked_owned_payment,
  report_paid, record_report,
}
use lanrouge_nails_bot.Reservations.Reminders.{PaymentSettings, StaffRecipient}
use lanrouge_nails_bot.Reservations.Lookups.{appointment-id}

still_there-found :
    {A : Type 0} (found : Option A) {a : A} → still_there found ≡ ok a → found ≡ some a
unfolding still_there
still_there-found none h = ground arith
still_there-found (some a) h = ground arith

check_owned-rows :
    (user_id : ℕ) (p : PaymentRow) (a : Appointment) (r : BookingReservation) {another : ℕ}
    {p' : PaymentRow} {a' : Appointment} {r' : BookingReservation}
    → ◌≡◌ {A = Result (ℕ × PaymentRow × Appointment × BookingReservation)}
        (◌>>◌ {B = ℕ × PaymentRow × Appointment × BookingReservation}
          (check_owned user_id p a r)
          (ok (user_id, p, a, r)))
        (ok (another, p', a', r'))
    → (p.appointment_id ≡ a.id) × (p ≡ p') × (a ≡ a') × (r ≡ r')
unfolding check_owned
check_owned-rows user_id p a r h = ground arith

module _ (business_id : ℕ) where
  -- A report moves a hold to another status that holds the window.
  report-holds :
      (rows : List BookingReservation) (appointment_id window_id : ℕ)
      → holds business_id window_id
          (change_first (is_active_for business_id appointment_id) awaiting_review rows)
        ≡ holds business_id window_id rows
  unfolding is_held
  report-holds rows appointment_id window_id =
      count-change_first (is_active_for business_id appointment_id) awaiting_review
        (is_held business_id window_id) rows (λ r active. ground arith)

  locked_rows-found :
      (s : Store) (user_id : ℕ) (hint : Appointment) (payment_id : ℕ) {another : ℕ} {p : PaymentRow}
      {a : Appointment} {r : BookingReservation}
      → locked_rows business_id s user_id hint payment_id ≡ ok (another, p, a, r)
      → (get_active_for_appointment business_id s a.id ≡ some r) × (p.appointment_id ≡ a.id)
  unfolding locked_rows
  locked_rows-found s user_id hint payment_id {another} {p} {a} {r} h =
      let (r1, holds_it, h1) =
        >>=-eq-ok (still_there (get_active_for_appointment business_id s hint.id)) _ h in
      let (p1, _, h2) = >>=-eq-ok (still_there (get_payment business_id s payment_id)) _ h1 in
      let (a1, loads, h3) =
        >>=-eq-ok (still_there (get_appointment_for_update business_id s hint.id)) _ h2 in
      let active = still_there-found (get_active_for_appointment business_id s hint.id) holds_it in
      let same =
        appointment-id business_id s hint.id
          (still_there-found (get_appointment_for_update business_id s hint.id) loads) in
      let (owned, p_same, a_same, r_same) = check_owned-rows user_id p1 a1 r1 h3 in (cc, cc)

  locked_owned_payment-found :
      (s : Store) (user : Option ℕ) (payment_id : ℕ) {user_id : ℕ} {p : PaymentRow}
      {a : Appointment} {r : BookingReservation}
      → locked_owned_payment business_id s user payment_id ≡ ok (user_id, p, a, r)
      → (get_active_for_appointment business_id s a.id ≡ some r) × (p.appointment_id ≡ a.id)
  unfolding locked_owned_payment
  locked_owned_payment-found s user payment_id h =
      let (hinted, _, h1) =
        >>=-eq-ok (found_hint user (get_payment business_id s payment_id)) _ h in
      let (hint, _, h2) =
        >>=-eq-ok
          (owned_appointment hinted.0
            (get_appointment_for_update business_id s hinted.1.appointment_id))
          _ h1 in
      locked_rows-found s hinted.0 hint payment_id h2

  report_rows-cases :
      (s : Store) (user_id : ℕ) (p : PaymentRow) (a : Appointment) (r : BookingReservation)
      (current : ℕ) (jobs : List NotificationJob) (correlation_id : Option Text) {s' : Store}
      {o : ManualPrepaymentOutcome}
      → report_rows business_id s user_id p a r current jobs correlation_id ≡ ok (s', o)
      → (o.payment.appointment_id ≡ p.appointment_id)
        × (((s' ≡ s) × (o.changed ≡ false))
            ⊎ ((s'.windows ≡ s.windows)
                × (s'.reservations
                    ≡ change_first
                        (is_active_for business_id a.id)
                        awaiting_review
                        s.reservations)))
  unfolding report_rows record_report
  report_rows-cases s user_id p a r current jobs correlation_id {s'} {o} h = ground arith

  -- The hold of a call that returned, and what the call did: nothing, or a report of it.
  report_paid-cases :
      (s : Store) (user : Option ℕ) (payment_id : ℕ) (settings : Option PaymentSettings)
      (staff_rows : List StaffRecipient) (now : Datetime) (correlation_id : Option Text)
      {s' : Store} {o : ManualPrepaymentOutcome}
      → report_paid business_id s user payment_id settings staff_rows now correlation_id
        ≡ ok (s', o)
      → (a : Appointment) × (r : BookingReservation) × (get_active_for_appointment business_id s
            a.id
          ≡ some r)
        × (o.payment.appointment_id ≡ a.id)
        × (((s' ≡ s) × (o.changed ≡ false))
            ⊎ ((s'.windows ≡ s.windows)
                × (s'.reservations
                    ≡ change_first
                        (is_active_for business_id a.id)
                        awaiting_review
                        s.reservations)))
  unfolding report_paid
  report_paid-cases s user payment_id settings staff_rows now correlation_id {s'} {o} h =
      let (current, _, h1) = >>=-eq-ok (require_aware now) _ h in
      let ((user_id, p, a, r), locked, h2) =
        >>=-eq-ok (locked_owned_payment business_id s user payment_id) _ h1 in
      let (active, same) = locked_owned_payment-found s user payment_id locked in
      let (paid, how) = report_rows-cases s user_id p a r current _ correlation_id h2 in
      (a, r, active, paid ∙ same, how)

  pub report_paid-IsExclusive :
      (s : Store) (user : Option ℕ) (payment_id : ℕ) (settings : Option PaymentSettings)
      (staff_rows : List StaffRecipient) (now : Datetime) (correlation_id : Option Text)
      {s' : Store} {o : ManualPrepaymentOutcome}
      → report_paid business_id s user payment_id settings staff_rows now correlation_id
        ≡ ok (s', o)
      → IsExclusive business_id s
      → IsExclusive business_id s'
  unfolding AreExclusive
  report_paid-IsExclusive s user payment_id settings staff_rows now correlation_id {s'} h
        (once, free) =
      let (a, r, _, _, how) =
        report_paid-cases s user payment_id settings staff_rows now correlation_id h in
      elim how [
        | inl (same, _) ↦ rw same (once, free)
        | inr (windows, rows) ↦
            rw (windows, rows)
              (
                (λ window_id.
                    ground (arith, report-holds s.reservations a.id window_id, once window_id)),
                IsFree-less business_id s.reservations _ s.windows
                    (λ window_id. omega (arith, report-holds s.reservations a.id window_id)) free,
              )
      ]

  pub submit_for_review-IsExclusive :
      (s : Store) (user : Option ℕ) (payment_id : ℕ) (receipt : Option ManualReceiptDraft)
      (now : Datetime) (correlation_id : Option Text) {s' : Store} {o : ManualPrepaymentOutcome}
      → submit_for_review business_id s user payment_id receipt now correlation_id ≡ ok (s', o)
      → IsExclusive business_id s
      → IsExclusive business_id s'
  unfolding submit_for_review
  submit_for_review-IsExclusive s user payment_id receipt now correlation_id {s'} {o} h kept =
      let (current, _, h1) = >>=-eq-ok (require_aware now) _ h in
      let ((user_id, p, a, r), locked, h2) =
        >>=-eq-ok (locked_owned_payment business_id s user payment_id) _ h1 in
      let (windows, rows) : (s'.windows ≡ s.windows) × (s'.reservations ≡ s.reservations) =
        ground arith in
      rw (windows, rows) kept

  reported-active :
      (r : BookingReservation) (appointment_id : ℕ)
      → is_active_for business_id appointment_id r ≡ true
      → is_active_for business_id appointment_id (awaiting_review r) ≡ true
  reported-active r appointment_id active = ground arith

  awaiting-expire_claimed :
      (s : Store) (r : BookingReservation) (appointment_id later : ℕ)
      → is_active_for business_id appointment_id r ≡ true
      → r.status ≡ ReservationStatus.awaiting_review
      → expire_claimed business_id s r (aware later) ≡ raised s reservation_state
  unfolding expire_claimed check_expiry require_business
  awaiting-expire_claimed s r appointment_id later active awaits = ground (arith, awaits)

  -- The hold of an appointment awaits review and does not run out.
  unfoldable pub AwaitsReview : Store → (appointment_id : ℕ) → Type 0
  AwaitsReview s appointment_id =
      (r : BookingReservation) × (get_active_for_appointment business_id s appointment_id ≡ some r)
      × (r.status ≡ ReservationStatus.awaiting_review)
      × ((later : ℕ) → is_expired business_id later r ≡ false)
      × ((later : ℕ) → expire_claimed business_id s r (aware later) ≡ raised s reservation_state)

  -- When a client's report of a payment changed something, the hold of its appointment awaits review:
  -- at no time does the worker's query select it, and an expiry of it is refused and changes nothing.
  pub report_paid-AwaitsReview :
      (s : Store) (user : Option ℕ) (payment_id : ℕ) (settings : Option PaymentSettings)
      (staff_rows : List StaffRecipient) (now : Datetime) (correlation_id : Option Text)
      {s' : Store} {o : ManualPrepaymentOutcome}
      → report_paid business_id s user payment_id settings staff_rows now correlation_id
        ≡ ok (s', o)
      → o.changed ≡ true
      → AwaitsReview s' o.payment.appointment_id
  unfolding AwaitsReview get_active_for_appointment is_expired
  report_paid-AwaitsReview s user payment_id settings staff_rows now correlation_id {s'} {o} h
        changed =
      let (a, r, found, same, how) =
        report_paid-cases s user payment_id settings staff_rows now correlation_id h in
      elim how [
        | inl (_, unchanged) ↦ ground (arith, changed, unchanged)
        | inr (windows, rows) ↦
            let found' =
              find-change_first (is_active_for business_id a.id) awaiting_review s.reservations
                (λ row. reported-active row a.id) found in
            let active =
              reported-active r a.id
                (find-test (is_active_for business_id a.id) s.reservations found) in
            rw same (
              awaiting_review r,
              subst (λ all. find (is_active_for business_id a.id) all ≡ some (awaiting_review r))
                  (sym rows) found',
              refl,
              (λ later. ground arith),
              (λ later. awaiting-expire_claimed s' (awaiting_review r) a.id later active refl),
            )
      ]
