-- ===== src/Examples/Holds.antt =====
-- The holds of one window: placed, consumed, repaired and expired at concrete inputs.
use lanrouge_nails_bot.Base.{inr, arith, ℕ, ◌+◌, ◌≤◌, ◌≡◌, refl, true, false, none, some, [], ◌∷◌}
use lanrouge_nails_bot.Errors.{reservation_state, ok}
use lanrouge_nails_bot.Time.{aware}
use lanrouge_nails_bot.Payments.Records.{done, raised, final}
use lanrouge_nails_bot.Reservations.Reachable.{calls-IsExclusive, no_call, after, creates, expires}
use lanrouge_nails_bot.Reservations.Store.{
  get_active_for_appointment, get_payment, get_latest_for_appointment, get_appointment_for_update,
  claim_expired, get_active_for_window, get_window_for_update, get_by_idempotency_key, PaymentRow,
  BookingReservation, AvailabilityWindow, Appointment, Store, get,
}
use lanrouge_nails_bot.Enums.{
  StaffRole, ManualPaymentStatus, ReservationStatus, AvailabilityWindowStatus, AppointmentStatus,
  PaymentMode, PaymentStatus,
}
use lanrouge_nails_bot.Reservations.Create.{
  require_business, place_hold, pending_appointment, check_new_hold, new_reservation, create,
}
use lanrouge_nails_bot.Reservations.Rules.{
  transition_appointment, require_reservation_matches_appointment, is_succeeded,
  ReservationExpiryAction, ReservationCreate,
}
use lanrouge_nails_bot.Text.{same_text, Text}
use lanrouge_nails_bot.Reservations.Consume.{consume}
use lanrouge_nails_bot.Reservations.Exclusive.{AreExclusive, IsExclusive}
use lanrouge_nails_bot.Reservations.Expire.{own_appointment, expire_claimed, check_expiry}
use lanrouge_nails_bot.Reservations.Finished.{run_cycle-claim_expired, run_cycle-counts}
use lanrouge_nails_bot.Reservations.Placed.{create-IsPlaced, create_twice, IsPlaced}
use lanrouge_nails_bot.Reservations.Worker.{run_cycle, ReservationExpiryResult}
use lanrouge_nails_bot.Lifecycle.Reservations.{ensure_reservation_transition}
use lanrouge_nails_bot.Reservations.Consumed.{MayConfirm}
use lanrouge_nails_bot.Reservations.Moves.{create-IsExclusive}
use lanrouge_nails_bot.Reservations.Overdue.{run_cycle-IsExclusive}
use lanrouge_nails_bot.Reservations.Replay.{consume-MayConfirm, consume_twice}
use lanrouge_nails_bot.Reservations.Paid.{IsBooked}
use lanrouge_nails_bot.Reservations.Released.{expire_claimed-IsReleased, IsReleased}
use lanrouge_nails_bot.Reservations.Reconciled.{IsPaid, expire_claimed-IsBooked}
use lanrouge_nails_bot.Lifecycle.Appointments.{ensure_appointment_transition}
use lanrouge_nails_bot.Reservations.Prepayment.{
  moves_to_review, check_report, check_owned, locked_owned_payment, record_report, reported_payment,
  report_paid,
}
use lanrouge_nails_bot.Reservations.Reminders.{
  notify_staff, reminder_offsets, StaffRecipient, PaymentSettings,
}
use lanrouge_nails_bot.Reservations.Reported.{report_paid-AwaitsReview, AwaitsReview}

abbrev key : Text
key = b'k' ∷ []

abbrev token : Text
token = b't' ∷ []

abbrev window : AvailabilityWindow
window = record {
  id = 5;
  business_id = 1;
  staff_member_id = 3;
  status = AvailabilityWindowStatus.open_;
}

abbrev appointment : Appointment
appointment = record {
  id = 7;
  business_id = 1;
  client_id = 2;
  staff_member_id = 3;
  window_id = 5;
  service_id = 4;
  status = AppointmentStatus.pending_payment;
  reservation_expires_at = none;
}

abbrev values : ReservationCreate
values = record {
  business_id = 1;
  client_id = 2;
  staff_member_id = 3;
  window_id = 5;
  service_id = 4;
  appointment_id = some 7;
  idempotency_key = key;
  ttl_minutes = 20;
  correlation_id = none;
}

abbrev payment : PaymentStatus → PaymentRow
payment status = record {
  id = 8;
  business_id = 1;
  appointment_id = 7;
  provider = PaymentMode.manual;
  client_reported_at = none;
  review_started_at = none;
  receipt = none;
  status = status;
  manual_status = none;
  created_at = 0;
  cancelled_at = none;
}

abbrev opened : PaymentStatus → Store
opened status = record {
  windows = window ∷ [];
  appointments = appointment ∷ [];
  reservations = [];
  payments = payment status ∷ [];
  history = [];
  audit = [];
  notifications = [];
}

abbrev hold : BookingReservation
hold = new_reservation values token 9 1_200_000_000

abbrev held : PaymentStatus → Store
held status = final (create 1 (opened status) values token 9 (aware 0))

placed :
    create 1 (opened PaymentStatus.pending) values token 9 (aware 0)
    ≡ done (held PaymentStatus.pending) (hold, true)
unfolding create get_by_idempotency_key check_new_hold get_window_for_update get_active_for_window
    pending_appointment place_hold
placed = refl

create-IsPlaced_example :
    IsPlaced 1 (opened PaymentStatus.pending) (held PaymentStatus.pending) values hold
create-IsPlaced_example =
    create-IsPlaced 1 (opened PaymentStatus.pending) values token 9 (aware 0) placed

-- The provider confirms the payment before the hold runs out, or no one notices that it did.
abbrev paid : Store
paid = record (held PaymentStatus.pending) { payments = payment PaymentStatus.succeeded ∷ [] }

abbrev booked_store : Store
booked_store = final (consume 1 paid 9 7 none none (aware 60_000_000))

abbrev consumed_hold : BookingReservation
consumed_hold = record hold { status = ReservationStatus.consumed; consumed_at = some 60_000_000 }

consumes_paid : consume 1 paid 9 7 none none (aware 60_000_000) ≡ done booked_store consumed_hold
unfolding consume create get_by_idempotency_key check_new_hold get_window_for_update
    get_active_for_window pending_appointment place_hold ensure_reservation_transition
    require_reservation_matches_appointment is_succeeded get_latest_for_appointment
    transition_appointment ensure_appointment_transition
consumes_paid = refl

refuses_unpaid :
    consume 1 (held PaymentStatus.pending) 9 7 none none (aware 60_000_000)
    ≡ raised (held PaymentStatus.pending) reservation_state
unfolding consume create get_by_idempotency_key check_new_hold get_window_for_update
    get_active_for_window pending_appointment place_hold ensure_reservation_transition
    require_reservation_matches_appointment is_succeeded get_latest_for_appointment
refuses_unpaid = refl

finds_hold : get 1 paid 9 ≡ some hold
unfolding get create get_by_idempotency_key check_new_hold get_window_for_update
    get_active_for_window pending_appointment place_hold
finds_hold = refl

consume-MayConfirm_example :
    ((a : Appointment) × (get_appointment_for_update 1 paid 7 ≡ some a) × MayConfirm 1 paid a)
    × IsBooked 1 booked_store 9 7 5
unfolding new_reservation
consume-MayConfirm_example =
    consume-MayConfirm 1 paid 9 7 none none (aware 60_000_000) finds_hold refl consumes_paid

consume_twice_example :
    consume 1 booked_store 9 7 (some 2) none (aware 90_000_000) ≡ done booked_store consumed_hold
consume_twice_example =
    consume_twice 1 paid 9 7 none (some 2) none none (aware 60_000_000) 90_000_000 consumes_paid

-- The hold runs out after twenty minutes.
abbrev deadline : ℕ
deadline = 1_200_000_000

abbrev reserved_window : AvailabilityWindow
reserved_window = record window { status = AvailabilityWindowStatus.reserved }

abbrev waiting : Appointment
waiting = record appointment { reservation_expires_at = some deadline }

ran_out_paid : check_expiry 1 paid hold deadline ≡ ok (reserved_window, some waiting)
unfolding check_expiry require_business new_reservation get_window_for_update create
    get_by_idempotency_key check_new_hold get_active_for_window pending_appointment place_hold
    own_appointment require_reservation_matches_appointment
ran_out_paid = refl

waiting-IsPaid : IsPaid 1 paid waiting
unfolding IsPaid is_succeeded get_latest_for_appointment
waiting-IsPaid = inr (refl, refl)

expire_claimed-IsBooked_example :
    (s' : Store) × (expire_claimed 1 paid hold (aware deadline)
      ≡ done s' ReservationExpiryAction.reconciled)
    × IsBooked 1 s' 9 7 5
    × (s'.payments ≡ payment PaymentStatus.succeeded ∷ [])
unfolding new_reservation
expire_claimed-IsBooked_example =
    expire_claimed-IsBooked 1 paid hold deadline finds_hold ran_out_paid waiting-IsPaid

finds_unpaid : get 1 (held PaymentStatus.pending) 9 ≡ some hold
unfolding get create get_by_idempotency_key check_new_hold get_window_for_update
    get_active_for_window pending_appointment place_hold
finds_unpaid = refl

ran_out_unpaid :
    check_expiry 1 (held PaymentStatus.pending) hold deadline ≡ ok (reserved_window, some waiting)
unfolding check_expiry require_business new_reservation get_window_for_update create
    get_by_idempotency_key check_new_hold get_active_for_window pending_appointment place_hold
    own_appointment require_reservation_matches_appointment
ran_out_unpaid = refl

is_unpaid :
    is_succeeded (get_latest_for_appointment 1 (held PaymentStatus.pending) waiting.id) ≡ false
unfolding is_succeeded get_latest_for_appointment create get_by_idempotency_key check_new_hold
    get_window_for_update get_active_for_window pending_appointment place_hold
is_unpaid = refl

expire_claimed-IsReleased_example :
    (s' : Store) × (expire_claimed 1 (held PaymentStatus.pending) hold (aware deadline)
      ≡ done s' ReservationExpiryAction.expired)
    × IsReleased 1 (held PaymentStatus.pending) hold reserved_window waiting s'
unfolding new_reservation
expire_claimed-IsReleased_example =
    expire_claimed-IsReleased 1 (held PaymentStatus.pending) hold deadline finds_unpaid
      ran_out_unpaid is_unpaid refl

-- The same, by a cycle of the worker.
abbrev expired_store : Store
expired_store = final (expire_claimed 1 (held PaymentStatus.pending) hold (aware deadline))

abbrev expired_hold : BookingReservation
expired_hold = record hold { status = ReservationStatus.expired; cancelled_at = some deadline }

finds_expired : get_by_idempotency_key 1 expired_store key ≡ some expired_hold
unfolding get_by_idempotency_key expire_claimed require_business new_reservation
    get_window_for_update create check_new_hold get_active_for_window pending_appointment place_hold
    own_appointment require_reservation_matches_appointment is_succeeded get_latest_for_appointment
    transition_appointment ensure_appointment_transition ensure_reservation_transition same_text
finds_expired = refl

-- The hold has expired when the call is repeated.
create_twice_example :
    create 1 expired_store values token 10 (aware (deadline + 60_000_000))
    ≡ done expired_store (expired_hold, false)
create_twice_example =
    create_twice 1 (opened PaymentStatus.pending) values token 9 10 (aware 0)
      (deadline + 60_000_000) expired_store expired_hold placed
      (inr (finds_expired, (refl, refl, refl, refl, refl, refl)))

abbrev one_expired : ReservationExpiryResult
one_expired = record { checked = 1; expired = 1; reconciled_paid = 0; errors = 0 }

cycle_expires :
    run_cycle 1 (held PaymentStatus.pending) (aware deadline) 100 ≡ ok (expired_store, one_expired)
unfolding run_cycle create get_by_idempotency_key check_new_hold get_window_for_update
    get_active_for_window pending_appointment place_hold expire_claimed own_appointment
    require_reservation_matches_appointment is_succeeded get_latest_for_appointment
    transition_appointment ensure_appointment_transition ensure_reservation_transition
cycle_expires = refl

IsExclusive-before : IsExclusive 1 (opened PaymentStatus.pending)
unfolding AreExclusive
IsExclusive-before = ((λ _. ground arith), ((λ _ _. refl), tt))

IsExclusive-held : IsExclusive 1 (held PaymentStatus.pending)
IsExclusive-held =
    create-IsExclusive 1 (opened PaymentStatus.pending) values token 9 (aware 0) IsExclusive-before

run_cycle-IsExclusive_example : IsExclusive 1 expired_store
unfolding create get_by_idempotency_key check_new_hold get_window_for_update get_active_for_window
    pending_appointment place_hold
run_cycle-IsExclusive_example =
    run_cycle-IsExclusive 1 (held PaymentStatus.pending) (aware deadline) 100 (tt, tt)
      IsExclusive-held cycle_expires

run_cycle-counts_example : (1 + 0 + 0 ≡ 1) × (1 ≤ 100)
run_cycle-counts_example =
    run_cycle-counts 1 (held PaymentStatus.pending) (aware deadline) 100 cycle_expires

run_cycle-claim_expired_example : claim_expired 1 expired_store deadline 100 ≡ ok []
run_cycle-claim_expired_example =
    run_cycle-claim_expired 1 (held PaymentStatus.pending) deadline 100 cycle_expires refl
      (omega arith)

-- The client of the hold reports a manual prepayment.
abbrev asked : Store
asked = record (held PaymentStatus.pending) {
  payments =
      record (payment PaymentStatus.pending) {
        manual_status = some ManualPaymentStatus.awaiting_payment;
      }
      ∷ [];
}

abbrev master : StaffRecipient
master = record {
  id = 3;
  role = StaffRole.master;
  permission_grants = [];
  user_id = 11;
  is_blocked = false;
}

abbrev reminders : PaymentSettings
reminders = record {
  staff_payment_notifications_enabled = true;
  staff_review_reminder_minutes = some (45 ∷ 15 ∷ 45 ∷ 0 ∷ []);
}

test_reminder_offsets : reminder_offsets (some (45 ∷ 15 ∷ 45 ∷ 0 ∷ [])) ≡ 15 ∷ 45 ∷ []
unfolding reminder_offsets
test_reminder_offsets = refl

abbrev asked_payment : PaymentRow
asked_payment = record (payment PaymentStatus.pending) {
  manual_status = some ManualPaymentStatus.awaiting_payment;
}

abbrev after_report : Store
after_report =
    record_report 1 asked 2 asked_payment waiting true 60
      (notify_staff 1 (some reminders) waiting 60 (master ∷ [])) none

client_reports :
    report_paid 1 asked (some 2) 8 (some reminders) (master ∷ []) (aware 60) none
    ≡ ok (after_report, record { payment = reported_payment 60 asked_payment; changed = true })
unfolding report_paid locked_owned_payment get_payment get_appointment_for_update create
    get_by_idempotency_key check_new_hold get_window_for_update get_active_for_window
    pending_appointment place_hold get_active_for_appointment check_owned check_report
    ensure_reservation_transition moves_to_review ensure_appointment_transition
client_reports = refl

report_paid-AwaitsReview_example : AwaitsReview 1 after_report 7
report_paid-AwaitsReview_example =
    report_paid-AwaitsReview 1 asked (some 2) 8 (some reminders) (master ∷ []) (aware 60) none
      client_reports refl

-- A hold is placed and runs out.
calls-IsExclusive_example : IsExclusive 1 expired_store
unfolding new_reservation
calls-IsExclusive_example =
    calls-IsExclusive 1 (opened PaymentStatus.pending) expired_store
      (after (opened PaymentStatus.pending) (held PaymentStatus.pending) expired_store
        (after (opened PaymentStatus.pending) (opened PaymentStatus.pending)
          (held PaymentStatus.pending) (no_call (opened PaymentStatus.pending))
          (creates (opened PaymentStatus.pending) values token 9 (aware 0)))
        (expires (held PaymentStatus.pending) hold (aware deadline) finds_unpaid))
      IsExclusive-before
