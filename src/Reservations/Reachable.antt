-- ===== src/Reservations/Reachable.antt =====
-- The calls of the service in any order, each ending as it may.
use lanrouge_nails_bot.Base.{List, ℕ, ◌≡◌, Option, some}
use lanrouge_nails_bot.Errors.{ok}
use lanrouge_nails_bot.Text.{Text}
use lanrouge_nails_bot.Time.{Datetime}
use lanrouge_nails_bot.Payments.Records.{final}
use lanrouge_nails_bot.Reservations.Store.{Store, BookingReservation, get}
use lanrouge_nails_bot.Reservations.Rules.{ReservationCreate}
use lanrouge_nails_bot.Reservations.Create.{create}
use lanrouge_nails_bot.Reservations.Consume.{consume}
use lanrouge_nails_bot.Reservations.Expire.{expire_claimed}
use lanrouge_nails_bot.Reservations.Exclusive.{IsExclusive}
use lanrouge_nails_bot.Reservations.Moves.{create-IsExclusive, consume-IsExclusive}
use lanrouge_nails_bot.Reservations.Expiry.{expire_claimed-IsExclusive}
use lanrouge_nails_bot.Reservations.Prepayment.{
  submit_for_review, ManualReceiptDraft, report_paid, ManualPrepaymentOutcome,
}
use lanrouge_nails_bot.Reservations.Reminders.{StaffRecipient, PaymentSettings}
use lanrouge_nails_bot.Reservations.Reported.{
  submit_for_review-IsExclusive, report_paid-IsExclusive,
}

module _ (business_id : ℕ) where
  -- One call; an expiry is of a row of the store, as the worker claims it.
  pub data Call : Store → Store → Type 0 where
    creates :
        (s : Store) (values : ReservationCreate) (digest : Text) (new_id : ℕ) (now : Datetime)
        → Call s (final (create business_id s values digest new_id now))
    consumes :
        (s : Store) (reservation_id appointment_id : ℕ) (actor_user_id : Option ℕ)
        (correlation_id : Option Text) (now : Datetime)
        → Call s (
            final (
              consume business_id s reservation_id appointment_id actor_user_id correlation_id now))
    expires :
        (s : Store) (r : BookingReservation) (now : Datetime)
        → get business_id s r.id ≡ some r
        → Call s (final (expire_claimed business_id s r now))
    -- A report that raised leaves nothing behind.
    reports :
        (s t : Store) (user : Option ℕ) (payment_id : ℕ) (settings : Option PaymentSettings)
        (staff_rows : List StaffRecipient) (now : Datetime) (correlation_id : Option Text)
        (o : ManualPrepaymentOutcome)
        → report_paid business_id s user payment_id settings staff_rows now correlation_id
          ≡ ok (t, o)
        → Call s t
    submits :
        (s t : Store) (user : Option ℕ) (payment_id : ℕ) (receipt : Option ManualReceiptDraft)
        (now : Datetime) (correlation_id : Option Text) (o : ManualPrepaymentOutcome)
        → submit_for_review business_id s user payment_id receipt now correlation_id ≡ ok (t, o)
        → Call s t

  pub data Calls : Store → Store → Type 0 where
    no_call : (s : Store) → Calls s s
    after : (s t u : Store) → Calls s t → Call t u → Calls s u

  Call-IsExclusive :
      (s t : Store) → Call s t → IsExclusive business_id s → IsExclusive business_id t
  Call-IsExclusive s _ (creates _ values digest new_id now) h =
      create-IsExclusive business_id s values digest new_id now h
  Call-IsExclusive s _ (consumes _ reservation_id appointment_id actor_user_id correlation_id now)
        h =
      consume-IsExclusive business_id s reservation_id appointment_id actor_user_id correlation_id
        now h
  Call-IsExclusive s _ (expires _ r now found) h =
      expire_claimed-IsExclusive business_id s r now found h
  Call-IsExclusive s t
        (reports _ _ user payment_id settings staff_rows now correlation_id o reported) h =
      report_paid-IsExclusive business_id s user payment_id settings staff_rows now correlation_id
        reported h
  Call-IsExclusive s t (submits _ _ user payment_id receipt now correlation_id o submitted) h =
      submit_for_review-IsExclusive business_id s user payment_id receipt now correlation_id
        submitted h

  -- Where no window of the business is held twice and no open one is held, this stays so after any
  -- calls of `create`, `consume`, `expire_claimed`, `report_paid` and `submit_for_review` in any
  -- order, those of the reservation service that raised included with what they had changed until
  -- then.
  pub calls-IsExclusive :
      (s t : Store) → Calls s t → IsExclusive business_id s → IsExclusive business_id t
  calls-IsExclusive s _ (no_call _) h = h
  calls-IsExclusive s u (after _ t _ before call) h =
      Call-IsExclusive t u call (calls-IsExclusive s t before h)
