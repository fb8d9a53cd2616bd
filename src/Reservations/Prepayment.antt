-- ===== src/Reservations/Prepayment.antt =====
-- app/services/manual_prepayment_service.py: what a client reports of a manual prepayment. `user` is
-- the client that the Telegram identity belongs to, `settings` the payment settings, and `staff_rows`
-- the staff that `list_active_by_roles` returns. A call that raises leaves nothing behind: its unit of
-- work is closed without a commit.
use lanrouge_nails_bot.Base.{
  ℕ, ◌+◌, Bool, true, false, not, ◌||◌, List, ◌∷◌, ◌++◌, Option, none, some, ◌==◌, leb,
  if◌then◌else◌, change_first,
}
use lanrouge_nails_bot.Enums.{
  AppointmentStatus, appointment_status_enum, ManualPaymentStatus, manual_payment_status_enum,
  PaymentMode, payment_mode_enum, PaymentStatus, payment_status_enum, ReservationStatus,
  reservation_status_enum, staff_role_enum, ◌is◌,
}
use lanrouge_nails_bot.Errors.{
  Result, ok, err, authorization, entity_not_found, payment_state, raise_if, ◌>>=◌, ◌>>◌,
}
use lanrouge_nails_bot.Text.{Text, same_text}
use lanrouge_nails_bot.Time.{Datetime, require_aware, days}
use lanrouge_nails_bot.Lifecycle.Appointments.{ensure_appointment_transition}
use lanrouge_nails_bot.Lifecycle.Reservations.{ensure_reservation_transition}
use lanrouge_nails_bot.Payments.Records.{is_id}
use lanrouge_nails_bot.Staff.Permissions.{staff_permission_enum}
use lanrouge_nails_bot.Reservations.Reminders.{StaffRecipient, PaymentSettings, notify_staff}
use lanrouge_nails_bot.Reservations.Store.{
  Appointment, BookingReservation, HistoryReason, AuditChanges, NotificationJob, PaymentRow,
  Receipt, Store, add_audit, get_active_for_appointment, get_appointment_for_update, get_payment,
  is_active_for, update_appointment, update_payment,
}

-- `ManualReceiptDraft`
pub record ManualReceiptDraft : Type 0 where
  pub telegram_file_id : Text
  pub telegram_file_unique_id : Text
  pub media_type : Text
  pub file_size : ℕ

-- `ManualPrepaymentOutcome`
pub record ManualPrepaymentOutcome : Type 0 where
  pub payment : PaymentRow
  pub changed : Bool

has_manual_status : ManualPaymentStatus → Option ManualPaymentStatus → Bool
has_manual_status status none = false
has_manual_status status (some found) = found is status

-- The row of a payment whose hold has to be there still.
unfoldable pub still_there : {A : Type 0} → Option A → Result A
still_there none = err payment_state
still_there (some a) = ok a

unfoldable pub found_hint : Option ℕ → Option PaymentRow → Result (ℕ × PaymentRow)
found_hint (some user_id) (some p) = ok (user_id, p)
found_hint (some user_id) none = err entity_not_found
found_hint none p = err entity_not_found

unfoldable pub owned_appointment : (user_id : ℕ) → Option Appointment → Result Appointment
owned_appointment user_id none = err authorization
owned_appointment user_id (some a) = raise_if (not (a.client_id == user_id)) authorization >> ok a

-- The tests of `report_paid` on the payment and its hold.
unfoldable pub check_report : PaymentRow → BookingReservation → (current : ℕ) → Result Unit
unfolding has_manual_status
check_report p r current =
    raise_if
      (not (has_manual_status ManualPaymentStatus.awaiting_payment p.manual_status)
        || not (p.status is PaymentStatus.pending)
        || not (r.status is ReservationStatus.active))
      payment_state
    >> raise_if (leb r.expires_at current) payment_state
    >> ensure_reservation_transition r.status ReservationStatus.awaiting_review

-- Whether the appointment moves on; if not, it is there already.
unfoldable pub moves_to_review : Appointment → Result Bool
moves_to_review a =
    if a.status is AppointmentStatus.pending_payment
    then ensure_appointment_transition a.status AppointmentStatus.pending_manual_confirmation
      >> ok true
    else raise_if (not (a.status is AppointmentStatus.pending_manual_confirmation)) payment_state
      >> ok false

abbrev pub reported_payment : ℕ → PaymentRow → PaymentRow
reported_payment current p = record p {
  manual_status = some ManualPaymentStatus.client_reported;
  client_reported_at = some current;
}

abbrev pub awaiting_review : BookingReservation → BookingReservation
awaiting_review r = record r { status = ReservationStatus.awaiting_review }

-- The receipt of a payment is the one that is sent again.
same_receipt : Option Receipt → Option ManualReceiptDraft → Bool
same_receipt found none = true
same_receipt none (some draft) = false
same_receipt (some found) (some draft) =
    same_text found.file_unique_id draft.telegram_file_unique_id

kept_receipt : Option ManualReceiptDraft → (current : ℕ) → Option Receipt → Option Receipt
kept_receipt none current before = before
kept_receipt (some draft) current before = some (record {
  file_id = draft.telegram_file_id;
  file_unique_id = draft.telegram_file_unique_id;
  media_type = draft.media_type;
  file_size = draft.file_size;
  received_at = current;
  expires_at = current + days 90;
})

has_receipt : Option ManualReceiptDraft → Bool
has_receipt none = false
has_receipt (some _) = true

-- The last test of `_locked_owned_payment`.
unfoldable pub check_owned :
    (user_id : ℕ) → PaymentRow → Appointment → BookingReservation → Result Unit
check_owned user_id p a r =
    raise_if
      (not (p.provider is PaymentMode.manual)
        || not (p.appointment_id == a.id)
        || not (a.client_id == user_id)
        || not (is_id r.appointment_id a.id))
      authorization

module _ (business_id : ℕ) where
  -- The rows that `_locked_owned_payment` locks, once the appointment is the client's.
  unfoldable pub locked_rows :
      Store
      → (user_id : ℕ) → (hint : Appointment) → (payment_id : ℕ)
      → Result (ℕ × PaymentRow × Appointment × BookingReservation)
  unfolding still_there
  locked_rows s user_id hint payment_id =
      still_there (get_active_for_appointment business_id s hint.id) >>= λ r.
      still_there (get_payment business_id s payment_id) >>= λ p.
      still_there (get_appointment_for_update business_id s hint.id) >>= λ a.
      check_owned user_id p a r >> ok (user_id, p, a, r)

  -- `_locked_owned_payment`: the user, the payment, its appointment and its hold.
  unfoldable pub locked_owned_payment :
      Store
      → (user : Option ℕ) → (payment_id : ℕ)
      → Result (ℕ × PaymentRow × Appointment × BookingReservation)
  unfolding found_hint owned_appointment locked_rows
  locked_owned_payment s user payment_id =
      found_hint user (get_payment business_id s payment_id) >>= λ (user_id, payment_hint).
      owned_appointment user_id
        (get_appointment_for_update business_id s payment_hint.appointment_id)
      >>= λ hint. locked_rows s user_id hint payment_id

  -- The rows that a report changes: the hold is the one row that the query returned.
  unfoldable pub record_report :
      Store
      → (user_id : ℕ) → PaymentRow
      → Appointment
      → (moves : Bool) → (current : ℕ) → List NotificationJob
      → (correlation_id : Option Text) → Store
  record_report s user_id p a moves current jobs correlation_id =
      let held = record s {
        reservations = change_first (is_active_for business_id a.id) awaiting_review s.reservations;
      } in
      let moved =
        update_appointment a.id
          (λ row. record row {
            status = if moves then AppointmentStatus.pending_manual_confirmation else row.status;
            reservation_expires_at = none;
          })
          held in
      add_audit
        (record {
          actor_user_id = some user_id;
          entity_id = p.id;
          changes = AuditChanges.manual_client_reported a.id false;
          correlation_id = correlation_id;
        })
        (record (update_payment p.id (reported_payment current) moved) {
          history =
              if moves
              then record {
                appointment_id = a.id;
                previous_status = a.status;
                new_status = AppointmentStatus.pending_manual_confirmation;
                changed_by_user_id = some user_id;
                reason = HistoryReason.client_reported_manual_payment;
              }
                ∷ s.history
              else s.history;
          notifications = jobs ++ s.notifications;
        })

  -- A report of the rows that are locked: once more, or for the first time.
  unfoldable pub report_rows :
      Store
      → (user_id : ℕ) → PaymentRow
      → Appointment
      → BookingReservation
      → (current : ℕ) → List NotificationJob
      → (correlation_id : Option Text) → Result (Store × ManualPrepaymentOutcome)
  unfolding has_manual_status
  report_rows s user_id p a r current jobs correlation_id =
      if has_manual_status ManualPaymentStatus.client_reported p.manual_status
        || has_manual_status ManualPaymentStatus.review_pending p.manual_status
      then ok (s, record { payment = p; changed = false })
      else check_report p r current >> moves_to_review a >>= λ moves. ok (
        record_report s user_id p a moves current jobs correlation_id,
        record { payment = reported_payment current p; changed = true },
      )

  unfoldable pub report_paid :
      Store
      → (user : Option ℕ) → (payment_id : ℕ) → Option PaymentSettings
      → List StaffRecipient
      → (now : Datetime) → (correlation_id : Option Text) → Result (Store × ManualPrepaymentOutcome)
  unfolding report_rows notify_staff
  report_paid s user payment_id settings staff_rows now correlation_id =
      require_aware now >>= λ current.
      locked_owned_payment s user payment_id >>= λ (user_id, p, a, r).
      report_rows s user_id p a r current (notify_staff business_id settings a current staff_rows)
        correlation_id

  unfoldable pub submit_for_review :
      Store
      → (user : Option ℕ) → (payment_id : ℕ) → Option ManualReceiptDraft
      → (now : Datetime) → (correlation_id : Option Text) → Result (Store × ManualPrepaymentOutcome)
  unfolding has_manual_status same_receipt kept_receipt has_receipt
  submit_for_review s user payment_id receipt now correlation_id = require_aware now >>= λ current.
      locked_owned_payment s user payment_id >>= λ (user_id, p, a, r).
      if has_manual_status ManualPaymentStatus.review_pending p.manual_status
      then raise_if (not (same_receipt p.receipt receipt)) payment_state
        >> ok (s, record { payment = p; changed = false })
      else raise_if
          (not (has_manual_status ManualPaymentStatus.client_reported p.manual_status)
            || not (r.status is ReservationStatus.awaiting_review))
          payment_state
        >> (let submitted : PaymentRow → PaymentRow = λ row. record row {
          receipt = kept_receipt receipt current row.receipt;
          manual_status = some ManualPaymentStatus.review_pending;
          review_started_at = some current;
        } in
            ok (
              add_audit
                  (record {
                    actor_user_id = some user_id;
                    entity_id = p.id;
                    changes =
                        AuditChanges.manual_review_requested p.appointment_id (has_receipt receipt);
                    correlation_id = correlation_id;
                  })
                  (update_payment p.id submitted s),
              record { payment = submitted p; changed = true },
            ))
