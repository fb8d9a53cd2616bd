-- ===== src/Payments/Refunds/Replay.antt =====
-- app/services/payment_service.py: an authoritative answer about a refund that comes again, at once
-- or after another refund was requested.
use lanrouge_nails_bot.Base.{ℕ, ◌≡◌, ◌≢◌, refl, arith, none, some, ◌∙◌}
use lanrouge_nails_bot.Enums.{
  PaymentMode, payment_mode_enum, PaymentStatus, payment_status_enum, RefundStatus,
  refund_status_enum, ◌is◌, is_refl,
}
use lanrouge_nails_bot.Errors.{ok}
use lanrouge_nails_bot.Text.Same.{same_text_refl}
use lanrouge_nails_bot.Time.{Datetime, aware, require_aware}
use lanrouge_nails_bot.Lifecycle.Payments.{require_payment_transition, require_refund_transition}
use lanrouge_nails_bot.Payments.Records.{attempt-done, ProviderRefund, done, final}
use lanrouge_nails_bot.Payments.Charges.{required_provider_payment_id}
use lanrouge_nails_bot.Payments.Refunds.{
  Aggregates, check_authoritative_refund, settle_refund, apply_authoritative_refund, count_refund,
  finish_refund, fail_refund, restore_payment_after_failed_refund, restored_status, finish_status,
  require_refund_belongs_to_payment,
}

finish_again :
    (t : ℕ) (c s' : Aggregates) (later : ℕ)
    → finish_refund t c ≡ done s' tt
    → finish_refund later s' ≡ done s' tt
unfolding finish_refund require_payment_transition finish_status
finish_again t c s' later h = ground arith

finish_keeps :
    (t : ℕ) (c s' : Aggregates)
    → finish_refund t c ≡ done s' tt
    → (s'.refund.status ≡ c.refund.status)
      × (s'.refund.provider_refund_id ≡ c.refund.provider_refund_id)
      × (s'.refund.last_error_code ≡ c.refund.last_error_code)
unfolding finish_refund
finish_keeps t c s' h = ground arith

-- The aggregates once the answer is noted, and once the amount is counted.
abbrev counted_once : Aggregates → ProviderRefund → Aggregates
counted_once s result = final (
    count_refund (s.refund.status is RefundStatus.succeeded) (record s {
      refund = record s.refund {
        provider_refund_id = some result.provider_refund_id;
        status = result.status;
        last_error_code = none;
      };
    }))

-- The refund that succeeded was counted, or had been, and then finished.
count_before_finish :
    (s : Aggregates) (result : ProviderRefund) (t : ℕ) (s' : Aggregates)
    → result.status ≡ RefundStatus.succeeded
    → settle_refund s result t ≡ done s' tt
    → (c : Aggregates) × (finish_refund t c ≡ done s' tt)
      × (c.refund.status ≡ RefundStatus.succeeded)
      × (c.refund.provider_refund_id ≡ some result.provider_refund_id)
      × (c.refund.last_error_code ≡ none)
unfolding settle_refund count_refund
count_before_finish s result t s' e h =
    (counted_once s result, ground arith, ground arith, ground arith, ground arith)

settle_finished :
    (s : Aggregates) (result : ProviderRefund) (later : ℕ)
    → result.status ≡ RefundStatus.succeeded
    → (s.refund.status ≡ RefundStatus.succeeded)
      × (s.refund.provider_refund_id ≡ some result.provider_refund_id)
      × (s.refund.last_error_code ≡ none)
    → settle_refund s result later ≡ finish_refund later s
unfolding settle_refund count_refund
settle_finished s result later e h = ground arith

settle_again_for :
    (status : RefundStatus) (s : Aggregates) (result : ProviderRefund) (t : ℕ) (s' : Aggregates)
    (later : ℕ)
    → result.status ≡ status
    → settle_refund s result t ≡ done s' tt
    → settle_refund s' result later ≡ done s' tt
unfolding settle_refund count_refund finish_refund fail_refund restore_payment_after_failed_refund
    require_payment_transition
settle_again_for RefundStatus.pending s result t s' later e h = ground arith
settle_again_for RefundStatus.succeeded s result t s' later e h =
    let (c, finished, status, id, code) = count_before_finish s result t s' e h in
    let (status', id', code') = finish_keeps t c s' finished in
    settle_finished s' result later e (status' ∙ status, id' ∙ id, code' ∙ code)
    ∙ finish_again t c s' later finished
settle_again_for RefundStatus.failed s result t s' later e h = ground arith
settle_again_for RefundStatus.cancelled s result t s' later e h = ground arith

-- What the tests of an answer read.
abbrev pub SameChecks : Aggregates → ProviderRefund → Aggregates → Type 0
SameChecks s result s' =
    (s'.payment.id ≡ s.payment.id)
    × (s'.payment.business_id ≡ s.payment.business_id)
    × (s'.payment.provider ≡ s.payment.provider)
    × (s'.payment.provider_payment_id ≡ s.payment.provider_payment_id)
    × (s'.payment.currency ≡ s.payment.currency)
    × (s'.refund.business_id ≡ s.refund.business_id)
    × (s'.refund.payment_id ≡ s.refund.payment_id)
    × (s'.refund.provider ≡ s.refund.provider)
    × (s'.refund.currency ≡ s.refund.currency)
    × (s'.refund.amount ≡ s.refund.amount)
    × (s'.refund.status ≡ result.status)
    × (s'.refund.provider_refund_id ≡ some result.provider_refund_id)

settled :
    (s : Aggregates) (result : ProviderRefund) (t : ℕ) (s' : Aggregates)
    → settle_refund s result t ≡ done s' tt
    → SameChecks s result s'
unfolding settle_refund count_refund finish_refund fail_refund restore_payment_after_failed_refund
settled s result t s' h = ground arith

transition_refl : (r : RefundStatus) → require_refund_transition r r ≡ ok tt
unfolding require_refund_transition
transition_refl r = ground (arith, is_refl r)

check_again :
    (mode : PaymentMode) (s : Aggregates) (result : ProviderRefund) (s' : Aggregates)
    → check_authoritative_refund mode s result ≡ ok tt
    → SameChecks s result s'
    → check_authoritative_refund mode s' result ≡ ok tt
unfolding check_authoritative_refund required_provider_payment_id require_refund_belongs_to_payment
check_again mode s result s' h same =
    ground (arith, same_text_refl result.provider_refund_id, transition_refl result.status)

-- A provider's answer that was applied to a refund can be applied again at any later time with the
-- refund and the payment as they were left: it changes nothing, so that a refund is counted once.
pub apply_authoritative_refund_again :
    (mode : PaymentMode) (s : Aggregates) (result : ProviderRefund) (now : Datetime)
    (s' : Aggregates)
    → apply_authoritative_refund mode s result now ≡ done s' tt
    → (later : ℕ) → apply_authoritative_refund mode s' result (aware later) ≡ done s' tt
unfolding apply_authoritative_refund
apply_authoritative_refund_again mode s result now s' h later =
    let (t, _, h') = attempt-done s (require_aware now) _ h in
    let (_, accepted, settles) = attempt-done s (check_authoritative_refund mode s result) _ h' in
    let again = check_again mode s result s' accepted (settled s result t s' settles) in
    rw again (settle_again_for result.status s result t s' later refl settles)

-- A repeated answer that a refund failed takes the payment out of the refund that is in flight: it
-- is accepted while another refund of the payment is pending, and the payment is then no longer in
-- the status that keeps further refunds from being requested.
pub late_failure_reopens_payment :
    (mode : PaymentMode) (s : Aggregates) (result : ProviderRefund) (now : ℕ)
    → s.payment.status ≡ PaymentStatus.refund_pending
    → s.refund.status ≡ RefundStatus.failed
    → result.status ≡ RefundStatus.failed
    → check_authoritative_refund mode s result ≡ ok tt
    → (s' : Aggregates) × (apply_authoritative_refund mode s result (aware now) ≡ done s' tt)
      × (s'.payment.status ≡ restored_status s.payment.refunded_amount)
      × (s'.payment.status ≢ PaymentStatus.refund_pending)
unfolding apply_authoritative_refund settle_refund fail_refund restore_payment_after_failed_refund
    restored_status require_payment_transition
late_failure_reopens_payment mode s result now pending failed reported accepted = (
  final (apply_authoritative_refund mode s result (aware now)),
  ground arith,
  ground arith,
  ground arith,
)
