-- ===== src/Examples/Rules.antt =====
-- Windows of a day, dates, phone numbers and the life of the aggregates at concrete inputs.
use lanrouge_nails_bot.Base.{
  ℕ, ◌+◌, ◌≤◌, ◌≡◌, ◌↔◌, refl, Bool, true, false, ◌&&◌, [], ◌∷◌, AllPairs, arith, leb,
}
use lanrouge_nails_bot.Enums.{
  AppointmentStatus, PaymentStatus, RefundStatus, ReservationStatus, DataDeletionRequestStatus,
  contains, payment_status_enum, refund_status_enum, reservation_status_enum,
  appointment_status_enum, data_deletion_request_status_enum,
}
use lanrouge_nails_bot.Errors.{ok}
use lanrouge_nails_bot.Text.{Text, is_space, strip}
use lanrouge_nails_bot.Time.{aware, minutes, hours, days}
use lanrouge_nails_bot.Projection.Zones.Fixed.{ahead_of_utc}
use lanrouge_nails_bot.Availability.{
  WindowRules, ExistingInterval, validate_calendar_rules, validate_spacing, validate_spacings,
  validate_capacity_and_spacing,
}
use lanrouge_nails_bot.Availability.Calendar.{IsAllowed, validate_calendar_rules_iff}
use lanrouge_nails_bot.Availability.Spacing.{Spaced, create_windows, create_windows-Spaced}
use lanrouge_nails_bot.Booking.{is_separator, with_prefix, require_digits, normalize_phone}
use lanrouge_nails_bot.Booking.Phones.{normalize_phone_again}
use lanrouge_nails_bot.Lifecycle.Runs.{run}
use lanrouge_nails_bot.Lifecycle.Appointments.{ensure_appointment_transition, occupies_schedule}
use lanrouge_nails_bot.Lifecycle.Appointments.Laws.{released_for_good}
use lanrouge_nails_bot.Lifecycle.Payments.{require_payment_transition, require_refund_transition}
use lanrouge_nails_bot.Lifecycle.Payments.Laws.{refund_needs_payment}
use lanrouge_nails_bot.Lifecycle.Reservations.{ensure_reservation_transition}
use lanrouge_nails_bot.Lifecycle.Deletions.{ensure_deletion_transition}
use lanrouge_nails_bot.Lifecycle.Deletions.Laws.{deletion_needs_approval}

abbrev rules : WindowRules
rules = record {
  timezone = ahead_of_utc (hours 3);
  booking_horizon_days = 30;
  max_windows_per_day = 2;
  default_duration_minutes = 120;
  minimum_gap_minutes = 15;
  allow_saturday = false;
  allow_sunday = false;
}

abbrev early : ExistingInterval
early = record { start_at = days 700 + hours 6; end_at = days 700 + hours 8 }

abbrev late : ExistingInterval
late = record { start_at = days 700 + hours 9; end_at = days 700 + hours 11 }

test_create_windows : create_windows 2 15 [] (early ∷ late ∷ []) ≡ ok (late ∷ early ∷ [])
unfolding validate_capacity_and_spacing validate_spacings validate_spacing
test_create_windows = refl

create_windows-Spaced_example : (2 ≤ 2) × AllPairs (Spaced (minutes 15)) (late ∷ early ∷ [])
create_windows-Spaced_example =
    create_windows-Spaced 2 15 [] (early ∷ late ∷ []) (late ∷ early ∷ []) tt
      (omega arith, (omega arith, tt)) test_create_windows (omega arith) tt

validate_calendar_rules_iff_example :
    (validate_calendar_rules 700
        (aware early.start_at)
        (aware early.end_at)
        (aware (days 699))
        rules
      ≡ ok tt)
    ↔ IsAllowed 700 early.start_at early.end_at (days 699) rules
validate_calendar_rules_iff_example =
    validate_calendar_rules_iff 700 early.start_at early.end_at (days 699) rules

test_validate_calendar_rules :
    validate_calendar_rules 700 (aware early.start_at) (aware early.end_at) (aware (days 699)) rules
    ≡ ok tt
unfolding validate_calendar_rules
test_validate_calendar_rules = refl

abbrev is_digit : ℕ → Bool
is_digit c = leb b'0' c && leb c b'9'

abbrev written : Text
written =
    b'8' ∷ b' ' ∷ b'(' ∷ b'9' ∷ b'0' ∷ b'0' ∷ b')' ∷ b'1' ∷ b'2' ∷ b'3' ∷ b'-' ∷ b'4' ∷ b'5' ∷ b'6'
    ∷ b'7' ∷ []

abbrev phone : Text
phone = b'+' ∷ b'7' ∷ b'9' ∷ b'0' ∷ b'0' ∷ b'1' ∷ b'2' ∷ b'3' ∷ b'4' ∷ b'5' ∷ b'6' ∷ b'7' ∷ []

test_normalize_phone : normalize_phone is_digit written ≡ ok phone
unfolding normalize_phone require_digits with_prefix strip is_space is_separator
test_normalize_phone = refl

digits_are_solid : (c : ℕ) → is_digit c ≡ true → is_separator c ≡ false
unfolding is_separator is_space
digits_are_solid c h = ground arith

normalize_phone_again_example : normalize_phone is_digit phone ≡ ok phone
normalize_phone_again_example =
    normalize_phone_again is_digit digits_are_solid written phone test_normalize_phone

accepted_for_cancelled :
    run ensure_appointment_transition AppointmentStatus.cancelled_by_client
      (AppointmentStatus.refund_pending ∷ AppointmentStatus.refunded ∷ [])
    ≡ ok AppointmentStatus.refunded
unfolding ensure_appointment_transition
accepted_for_cancelled = refl

released_for_good_example : occupies_schedule AppointmentStatus.refunded ≡ false
unfolding occupies_schedule
released_for_good_example =
    released_for_good AppointmentStatus.cancelled_by_client
      (AppointmentStatus.refund_pending ∷ AppointmentStatus.refunded ∷ [])
      AppointmentStatus.refunded accepted_for_cancelled refl

accepted_for_paid :
    run require_payment_transition PaymentStatus.created
      (PaymentStatus.pending ∷ PaymentStatus.succeeded ∷ PaymentStatus.refund_pending ∷ [])
    ≡ ok PaymentStatus.refund_pending
unfolding require_payment_transition
accepted_for_paid = refl

refund_needs_payment_example :
    contains PaymentStatus.succeeded
      (PaymentStatus.pending ∷ PaymentStatus.succeeded ∷ PaymentStatus.refund_pending ∷ [])
    ≡ true
refund_needs_payment_example =
    refund_needs_payment PaymentStatus.created
      (PaymentStatus.pending ∷ PaymentStatus.succeeded ∷ PaymentStatus.refund_pending ∷ [])
      PaymentStatus.refund_pending accepted_for_paid refl refl

accepted_for_refunded :
    run require_payment_transition PaymentStatus.succeeded
      (PaymentStatus.refund_pending ∷ PaymentStatus.refunded ∷ [])
    ≡ ok PaymentStatus.refunded
unfolding require_payment_transition
accepted_for_refunded = refl

accepted_for_refund :
    run require_refund_transition RefundStatus.pending
      (RefundStatus.failed ∷ RefundStatus.failed ∷ [])
    ≡ ok RefundStatus.failed
unfolding require_refund_transition
accepted_for_refund = refl

accepted_for_reservation :
    run ensure_reservation_transition ReservationStatus.active (ReservationStatus.consumed ∷ [])
    ≡ ok ReservationStatus.consumed
unfolding ensure_reservation_transition
accepted_for_reservation = refl

accepted_for_deletion :
    run ensure_deletion_transition DataDeletionRequestStatus.in_review
      (DataDeletionRequestStatus.approved ∷ DataDeletionRequestStatus.processing ∷ [])
    ≡ ok DataDeletionRequestStatus.processing
unfolding ensure_deletion_transition
accepted_for_deletion = refl

deletion_needs_approval_example :
    contains DataDeletionRequestStatus.approved
      (DataDeletionRequestStatus.approved ∷ DataDeletionRequestStatus.processing ∷ [])
    ≡ true
deletion_needs_approval_example =
    deletion_needs_approval DataDeletionRequestStatus.in_review
      (DataDeletionRequestStatus.approved ∷ DataDeletionRequestStatus.processing ∷ [])
      DataDeletionRequestStatus.processing accepted_for_deletion refl refl
