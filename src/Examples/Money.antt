-- ===== src/Examples/Money.antt =====
-- A payment of 1500.00 and its refunds at concrete inputs.
use lanrouge_nails_bot.Base.{
  length, ap, ◌+◌, ◌≤◌, ◌≡◌, ◌≢◌, refl, true, false, none, some, [], ◌∷◌, All, ◌⊎◌, inl,
}
use lanrouge_nails_bot.Enums.{PaymentMode, PaymentStatus, RefundStatus}
use lanrouge_nails_bot.Errors.{protocol_error, ErrorCode, ok, payment_state}
use lanrouge_nails_bot.Text.{Text, strip, is_space, same_text, has_prefix}
use lanrouge_nails_bot.Time.{aware}
use lanrouge_nails_bot.Lifecycle.Payments.{require_payment_transition, require_refund_transition}
use lanrouge_nails_bot.Payments.Money.{fraction, upper, validate_money}
use lanrouge_nails_bot.Payments.Money.Exact.{IsThreeCapitals, IsExactly, validate_money-IsExactly}
use lanrouge_nails_bot.Payments.Metadata.{
  Mapping, casefold, is_metadata_key, is_forbidden, validate_safe_metadata,
}
use lanrouge_nails_bot.Payments.Metadata.Safe.{IsSafe, validate_safe_metadata-IsSafe}
use lanrouge_nails_bot.Payments.Records.{
  PaymentType, PaymentCreate, Payment, Refund, PaymentWebhookEvent, WebhookProcessingStatus,
  ProviderPayment, ProviderRefund, RefundCreate, done, raised, final,
}
use lanrouge_nails_bot.Payments.Charges.{
  apply_authoritative_payment, target_status, metadata_differs, require_provider,
  required_provider_payment_id,
}
use lanrouge_nails_bot.Payments.Charges.Replay.{
  apply_authoritative_payment_again, apply_authoritative_payment-trusted,
  apply_authoritative_payment_refused,
}
use lanrouge_nails_bot.Payments.Refunds.{
  Aggregates, apply_authoritative_refund, check_authoritative_refund, restored_status,
  require_refund_belongs_to_payment,
}
use lanrouge_nails_bot.Payments.Refunds.Replay.{
  apply_authoritative_refund_again, late_failure_reopens_payment,
}
use lanrouge_nails_bot.Payments.Refunds.Ledger.{
  Account, ensure_refund, Reachable, requested, answered, start, step, sum_pending_refunds,
  sum_succeeded_refunds, refunds_within_payment,
}
use lanrouge_nails_bot.Payments.Intents.{
  create_with_provider, refresh_from_provider, cancel_with_provider,
}
use lanrouge_nails_bot.Payments.Intents.Keeping.{IsKept, provider_calls-IsKept}
use lanrouge_nails_bot.Payments.Webhooks.{
  payment_prefix, refund_prefix, PaymentEvent, RefundEvent, apply_payment_webhook_result,
  apply_refund_webhook_result, require_webhook_matches_payment, processed_event,
}
use lanrouge_nails_bot.Payments.Webhooks.Once.{refund_webhook_once, payment_webhook_once}

abbrev rub : Text
rub = b'R' ∷ b'U' ∷ b'B' ∷ []

abbrev payment_id : Text
payment_id = b'p' ∷ b'1' ∷ []

abbrev refund_id : Text
refund_id = b'r' ∷ b'1' ∷ []

abbrev created : Payment
created = record {
  appointment_id = 2;
  idempotency_key = payment_id;
  payment_type = PaymentType.deposit;
  expires_at = none;
  id = some 3;
  business_id = 1;
  provider = PaymentMode.yookassa;
  provider_payment_id = none;
  amount = 150_000;
  refunded_amount = 0;
  currency = rub;
  status = PaymentStatus.created;
  safe_metadata = [];
  confirmation_url = none;
  paid_at = none;
  cancelled_at = none;
  refunded_at = none;
  attempts = 1;
  last_error_code = none;
}

abbrev succeeded_answer : ProviderPayment
succeeded_answer = record {
  provider = PaymentMode.yookassa;
  provider_payment_id = payment_id;
  status = PaymentStatus.succeeded;
  amount = fraction false 150_000 2;
  currency = rub;
  safe_metadata = [];
  confirmation_url = none;
  paid_at = none;
  cancelled_at = none;
}

abbrev paid : Payment
paid = record created {
  provider_payment_id = some payment_id;
  status = PaymentStatus.succeeded;
  paid_at = some 5;
}

test_apply_authoritative_payment :
    apply_authoritative_payment PaymentMode.yookassa created succeeded_answer (aware 5)
    ≡ done paid tt
unfolding apply_authoritative_payment require_provider validate_money strip is_space same_text
    metadata_differs require_payment_transition target_status
test_apply_authoritative_payment = refl

abbrev refund_values : RefundCreate
refund_values = record {
  business_id = 1;
  payment_id = 3;
  amount = fraction false 5005 1;
  currency = rub;
  idempotency_key = refund_id;
  reason_code = b'x' ∷ [];
  safe_metadata = [];
  requested_by_user_id = none;
}

abbrev refund : Refund
refund = record {
  business_id = 1;
  payment_id = 3;
  provider = PaymentMode.yookassa;
  provider_refund_id = none;
  idempotency_key = refund_id;
  amount = 50_050;
  currency = rub;
  status = RefundStatus.pending;
  reason_code = b'x' ∷ [];
  safe_metadata = [];
  requested_by_user_id = none;
  succeeded_at = none;
  failed_at = none;
  attempts = 0;
  last_error_code = none;
}

abbrev refunding : Payment
refunding = record paid { status = PaymentStatus.refund_pending }

test_ensure_refund :
    ensure_refund PaymentMode.yookassa true (record { payment = paid; refunds = [] }) refund_values
    ≡ done (record { payment = refunding; refunds = refund ∷ [] }) tt
unfolding ensure_refund strip is_space same_text
test_ensure_refund = refl

abbrev refund_answer : RefundStatus → ProviderRefund
refund_answer status = record {
  provider = PaymentMode.yookassa;
  provider_refund_id = refund_id;
  provider_payment_id = payment_id;
  status = status;
  amount = fraction false 50_050 2;
  currency = rub;
}

abbrev refunded : Aggregates
refunded = record {
  payment = record paid { status = PaymentStatus.partially_refunded; refunded_amount = 50_050 };
  refund = record refund {
    provider_refund_id = some refund_id;
    status = RefundStatus.succeeded;
    succeeded_at = some 9;
  };
}

abbrev pending : Aggregates
pending = record { payment = refunding; refund = refund }

test_apply_authoritative_refund :
    apply_authoritative_refund PaymentMode.yookassa pending
      (refund_answer RefundStatus.succeeded)
      (aware 9)
    ≡ done refunded tt
unfolding apply_authoritative_refund require_refund_belongs_to_payment same_text
    required_provider_payment_id validate_money strip is_space require_refund_transition
test_apply_authoritative_refund = refl

abbrev short_answer : ProviderPayment
short_answer = record succeeded_answer { amount = fraction false 100 2 }

test_refused :
    apply_authoritative_payment PaymentMode.yookassa created short_answer (aware 5)
    ≡ raised created (protocol_error ErrorCode.provider_payment_money_mismatch)
unfolding apply_authoritative_payment require_provider validate_money strip is_space same_text
    metadata_differs require_payment_transition target_status
test_refused = refl

apply_authoritative_payment_refused_example : created ≡ created
apply_authoritative_payment_refused_example =
    apply_authoritative_payment_refused PaymentMode.yookassa created short_answer (aware 5) created
      (protocol_error ErrorCode.provider_payment_money_mismatch) 0 0 (inl refl) (inl refl)
      test_refused

apply_authoritative_payment_again_example :
    apply_authoritative_payment PaymentMode.yookassa paid succeeded_answer (aware 77) ≡ done paid tt
apply_authoritative_payment_again_example =
    apply_authoritative_payment_again PaymentMode.yookassa created succeeded_answer (aware 5) paid
      test_apply_authoritative_payment 77

apply_authoritative_payment-trusted_example :
    (PaymentMode.yookassa ≡ PaymentMode.yookassa)
    × (validate_money (fraction false 150_000 2) rub ≡ ok (150_000, rub))
    × ((created.provider_payment_id ≡ none) ⊎ (created.provider_payment_id ≡ some payment_id))
    × (some payment_id ≡ some payment_id)
    × (require_payment_transition PaymentStatus.created PaymentStatus.succeeded ≡ ok tt)
    × (paid.amount ≡ created.amount)
    × (rub ≡ rub)
    × (paid.refunded_amount ≡ created.refunded_amount)
apply_authoritative_payment-trusted_example =
    apply_authoritative_payment-trusted PaymentMode.yookassa created succeeded_answer (aware 5) paid
      test_apply_authoritative_payment

apply_authoritative_refund_again_example :
    apply_authoritative_refund PaymentMode.yookassa refunded
      (refund_answer RefundStatus.succeeded)
      (aware 77)
    ≡ done refunded tt
apply_authoritative_refund_again_example =
    apply_authoritative_refund_again PaymentMode.yookassa pending
      (refund_answer RefundStatus.succeeded) (aware 9) refunded test_apply_authoritative_refund 77

-- The first refund failed, and the payment has another in flight.
abbrev overtaken : Aggregates
overtaken = record {
  payment = refunding;
  refund = record refund {
    provider_refund_id = some refund_id;
    status = RefundStatus.failed;
    failed_at = some 8;
  };
}

test_overtaken :
    check_authoritative_refund PaymentMode.yookassa overtaken (refund_answer RefundStatus.failed)
    ≡ ok tt
unfolding check_authoritative_refund require_refund_belongs_to_payment same_text
    required_provider_payment_id validate_money strip is_space require_refund_transition
test_overtaken = refl

late_failure_reopens_payment_example :
    (s' : Aggregates) × (apply_authoritative_refund PaymentMode.yookassa overtaken
        (refund_answer RefundStatus.failed)
        (aware 9)
      ≡ done s' tt)
    × (s'.payment.status ≡ restored_status 0)
    × (s'.payment.status ≢ PaymentStatus.refund_pending)
late_failure_reopens_payment_example =
    late_failure_reopens_payment PaymentMode.yookassa overtaken (refund_answer RefundStatus.failed)
      9 refl refl refl test_overtaken

abbrev settled_account : Account
settled_account = record { payment = refunded.payment; refunds = refunded.refund ∷ [] }

one_refund :
    Reachable PaymentMode.yookassa true (record { payment = paid; refunds = [] }) settled_account
one_refund =
    step (record { payment = refunding; refunds = refund ∷ [] }) settled_account
      (step (record { payment = paid; refunds = [] })
        (record { payment = refunding; refunds = refund ∷ [] }) start
        (requested (record { payment = paid; refunds = [] })
          (record { payment = refunding; refunds = refund ∷ [] }) refund_values test_ensure_refund))
      (answered refunding [] [] refund (refund_answer RefundStatus.succeeded) (aware 9) refunded
        (ap final test_apply_authoritative_refund))

refunds_within_payment_example :
    (settled_account.payment.refunded_amount ≡ sum_succeeded_refunds (refunded.refund ∷ []))
    × (sum_succeeded_refunds (refunded.refund ∷ []) + sum_pending_refunds (refunded.refund ∷ [])
        ≤ 150_000)
refunds_within_payment_example =
    refunds_within_payment PaymentMode.yookassa true paid refl settled_account one_refund

test_validate_money :
    validate_money (fraction false 5005 1) (b'r' ∷ b'u' ∷ b'b' ∷ []) ≡ ok (50_050, rub)
unfolding validate_money strip is_space
test_validate_money = refl

validate_money-IsExactly_example :
    IsExactly (fraction false 5005 1) 50_050
    × (1 ≤ 50_050)
    × (50_050 ≤ 999_999_999_999)
    × (rub ≡ upper (strip (b'r' ∷ b'u' ∷ b'b' ∷ [])))
    × IsThreeCapitals rub
validate_money-IsExactly_example =
    validate_money-IsExactly (fraction false 5005 1) (b'r' ∷ b'u' ∷ b'b' ∷ []) 50_050 rub
      test_validate_money

abbrev raw_metadata : Mapping
raw_metadata = (b'S' ∷ b'r' ∷ b'c' ∷ [], b' ' ∷ b't' ∷ b'g' ∷ []) ∷ []

abbrev metadata : Mapping
metadata = (b's' ∷ b'r' ∷ b'c' ∷ [], b't' ∷ b'g' ∷ []) ∷ []

test_validate_safe_metadata : validate_safe_metadata raw_metadata ≡ ok metadata
unfolding validate_safe_metadata is_forbidden casefold is_metadata_key strip is_space has_prefix
test_validate_safe_metadata = refl

validate_safe_metadata-IsSafe_example : All IsSafe metadata × (length metadata ≤ 16)
validate_safe_metadata-IsSafe_example =
    validate_safe_metadata-IsSafe raw_metadata metadata test_validate_safe_metadata

abbrev event : PaymentWebhookEvent
event = record {
  event_key = payment_id;
  payload_sha256 = [];
  received_at = 8;
  expires_at = 100;
  business_id = 1;
  payment_id = none;
  provider = PaymentMode.yookassa;
  event_type = payment_prefix;
  provider_object_id = payment_id;
  provider_payment_id = payment_id;
  status = WebhookProcessingStatus.pending;
  processed_at = none;
  attempts = 0;
  last_error_code = none;
}

abbrev paid_event : PaymentEvent
paid_event = record { payment = paid; event = processed_event event (some 3) 9 }

test_apply_payment_webhook_result :
    apply_payment_webhook_result PaymentMode.yookassa
      (record { payment = paid; event = event })
      succeeded_answer
      (aware 9)
    ≡ done paid_event tt
unfolding required_provider_payment_id apply_payment_webhook_result apply_authoritative_payment
    require_provider validate_money require_webhook_matches_payment has_prefix strip is_space
    same_text metadata_differs require_payment_transition target_status
test_apply_payment_webhook_result = refl

payment_webhook_once_example :
    (WebhookProcessingStatus.processed ≡ WebhookProcessingStatus.processed)
    × (apply_payment_webhook_result PaymentMode.yookassa paid_event short_answer (aware 10)
        ≡ raised paid_event payment_state)
payment_webhook_once_example =
    payment_webhook_once PaymentMode.yookassa (record { payment = paid; event = event })
      succeeded_answer (aware 9) paid_event test_apply_payment_webhook_result short_answer 10

abbrev refund_event : PaymentWebhookEvent
refund_event = record event { event_type = refund_prefix; provider_object_id = refund_id }

abbrev submitted : Aggregates
submitted = record pending { refund = record refund { provider_refund_id = some refund_id } }

abbrev refunded_event : RefundEvent
refunded_event = record { aggregates = refunded; event = processed_event refund_event (some 3) 9 }

test_apply_refund_webhook_result :
    apply_refund_webhook_result PaymentMode.yookassa
      (record { aggregates = submitted; event = refund_event })
      (refund_answer RefundStatus.succeeded)
      (aware 9)
    ≡ done refunded_event tt
unfolding apply_refund_webhook_result apply_authoritative_refund require_refund_belongs_to_payment
    require_webhook_matches_payment has_prefix same_text required_provider_payment_id validate_money
    strip is_space require_refund_transition
test_apply_refund_webhook_result = refl

refund_webhook_once_example :
    (WebhookProcessingStatus.processed ≡ WebhookProcessingStatus.processed)
    × (apply_refund_webhook_result PaymentMode.yookassa refunded_event
          (refund_answer RefundStatus.failed)
          (aware 10)
        ≡ raised refunded_event payment_state)
refund_webhook_once_example =
    refund_webhook_once PaymentMode.yookassa
      (record { aggregates = submitted; event = refund_event })
      (refund_answer RefundStatus.succeeded) (aware 9) refunded_event
      test_apply_refund_webhook_result (refund_answer RefundStatus.failed) 10

abbrev intent : PaymentCreate
intent = record {
  business_id = 1;
  appointment_id = 2;
  provider = PaymentMode.yookassa;
  payment_type = PaymentType.deposit;
  amount = 150_000;
  currency = rub;
  idempotency_key = payment_id;
  safe_metadata = [];
  return_url = none;
  description = rub;
}

provider_calls-IsKept_example :
    IsKept created (
      final (
        create_with_provider PaymentMode.yookassa
          (λ _. ok succeeded_answer)
          created
          intent
          (aware 5)))
    × IsKept created (
        final (refresh_from_provider PaymentMode.yookassa (λ _. ok short_answer) created (aware 5)))
    × IsKept created (
        final (
          cancel_with_provider PaymentMode.yookassa
            (λ _. ok succeeded_answer)
            created
            refund_id
            (aware 5)))
provider_calls-IsKept_example =
    provider_calls-IsKept PaymentMode.yookassa created intent refund_id (aware 5)
      (λ _. ok succeeded_answer) (λ _. ok short_answer) (λ _. ok succeeded_answer)
