-- ===== src/Payments/Charges.antt =====
-- app/services/payment_service.py, `PaymentService` on a payment: what an authoritative provider
-- response, a provider failure and a manual confirmation do. `mode` is the mode of the provider.
use lanrouge_nails_bot.Base.{
  ℕ, ◌+◌, Bool, true, false, not, ◌&&◌, ◌||◌, List, [], ◌∷◌, any, ◌==◌, if◌then◌else◌, Option, none,
  some,
}
use lanrouge_nails_bot.Enums.{
  PaymentMode, payment_mode_enum, PaymentStatus, payment_status_enum, ◌is◌, contains,
}
use lanrouge_nails_bot.Errors.{
  ErrorCode, ProviderError, Result, ok, err, payment_state, value_error, provider_error,
  protocol_error, ◌>>=◌, ◌>>◌, raise_if,
}
use lanrouge_nails_bot.Text.{Text, same_text}
use lanrouge_nails_bot.Time.{Datetime, require_aware}
use lanrouge_nails_bot.Lifecycle.Payments.{require_payment_transition}
use lanrouge_nails_bot.Payments.Money.{validate_money}
use lanrouge_nails_bot.Payments.Metadata.{Mapping, get}
use lanrouge_nails_bot.Payments.Records.{
  Payment, ProviderPayment, Outcome, done, raised, attempt, and_then, final, is_missing_or, text_or,
}
pub mod Replay

-- `_require_payment_state`
unfoldable pub require_payment_state : Payment → List PaymentStatus → Result Unit
require_payment_state payment allowed =
    raise_if (not (contains payment.status allowed)) payment_state

-- `_required_provider_payment_id`
unfoldable pub required_provider_payment_id : Payment → Result Text
required_provider_payment_id payment = required payment.provider_payment_id
  where
    required : Option Text → Result Text
    required none = err payment_state
    required (some id) = ok id

-- The metadata of the intent that the response does not repeat.
unfoldable pub metadata_differs : Mapping → Mapping → Bool
unfolding get
metadata_differs echoed expected =
    any (λ (key, value). not (repeats (get echoed key) value)) expected
  where
    repeats : Option Text → Text → Bool
    repeats none value = false
    repeats (some found) value = same_text found value

-- A response that says succeeded does not undo a refund that is known locally.
unfoldable pub target_status : PaymentStatus → PaymentStatus → PaymentStatus
target_status current reported =
    if reported is PaymentStatus.succeeded
      && contains current (
          PaymentStatus.refund_pending ∷ PaymentStatus.partially_refunded ∷ PaymentStatus.refunded
          ∷ [])
    then current
    else reported

-- `aware_utc(reported) if reported else current`
unfoldable pub reported_or_now : Option Datetime → ℕ → Result ℕ
reported_or_now none current = ok current
reported_or_now (some t) current = require_aware t

-- The settlement time, once the status is set: the first one that is reported stays.
unfoldable pub settle_time : Bool → Option ℕ → Option Datetime → ℕ → Result (Option ℕ)
unfolding reported_or_now
settle_time false known reported current = ok known
settle_time true (some t) reported current = ok (some t)
settle_time true none reported current = reported_or_now reported current >>= λ t. ok (some t)

-- The mutations of `apply_authoritative_payment`. The time of a naive `paid_at` raises after the
-- status is set.
unfoldable pub settle_payment : Payment → ProviderPayment → PaymentStatus → ℕ → Outcome Payment Unit
unfolding settle_time
settle_payment payment result target current =
    let known = record payment {
      provider_payment_id = some result.provider_payment_id;
      status = target;
      confirmation_url = text_or result.confirmation_url payment.confirmation_url;
      last_error_code = none;
    } in
    attempt known
      (settle_time (target is PaymentStatus.succeeded) known.paid_at result.paid_at current)
      λ paid_at.
        let paid = record known { paid_at = paid_at } in
        attempt paid
          (settle_time (target is PaymentStatus.cancelled) paid.cancelled_at result.cancelled_at
            current)
          λ cancelled_at. done (record paid { cancelled_at = cancelled_at }) tt

module _ (mode : PaymentMode) where
  -- `_require_provider`
  unfoldable pub require_provider : PaymentMode → Result Unit
  require_provider provider = raise_if (not (provider is mode)) payment_state

  -- The tests of `apply_authoritative_payment`, which mutate nothing: the status to set.
  unfoldable pub check_authoritative_payment : Payment → ProviderPayment → Result PaymentStatus
  check_authoritative_payment payment result =
      let target = target_status payment.status result.status in
      require_provider result.provider
      >> validate_money result.amount result.currency
      >>= λ (amount, currency).
          raise_if (not (amount == payment.amount) || not (same_text currency payment.currency))
            (protocol_error ErrorCode.provider_payment_money_mismatch)
          >> raise_if (not (is_missing_or payment.provider_payment_id result.provider_payment_id))
              (protocol_error ErrorCode.provider_payment_id_mismatch)
          >> raise_if (metadata_differs result.safe_metadata payment.safe_metadata)
              (protocol_error ErrorCode.provider_payment_metadata_mismatch)
          >> require_payment_transition payment.status target
          >> ok target

  unfoldable pub apply_authoritative_payment :
      Payment → ProviderPayment → (now : Datetime) → Outcome Payment Unit
  unfolding check_authoritative_payment settle_payment
  apply_authoritative_payment payment result now = attempt payment (require_aware now) λ current.
      attempt payment (check_authoritative_payment payment result)
        λ target. settle_payment payment result target current

  unfoldable pub apply_creation_result :
      Payment → ProviderPayment → (now : Datetime) → Outcome Payment Unit
  unfolding require_payment_state apply_authoritative_payment
  apply_creation_result payment result now =
      attempt payment (require_payment_state payment (PaymentStatus.created ∷ [])) λ _.
        apply_authoritative_payment
          (record payment { attempts = payment.attempts + 1; last_error_code = none }) result now

-- `_record_payment_error`
unfoldable pub record_payment_error : Payment → ProviderError → Outcome Payment Unit
unfolding require_payment_transition
record_payment_error payment error =
    let noted = record payment { last_error_code = some error.code } in
    if error.retryable
    then done noted tt
    else attempt noted (require_payment_transition noted.status PaymentStatus.failed)
        λ _. done (record noted { status = PaymentStatus.failed }) tt

unfoldable pub apply_creation_failure : Payment → ProviderError → Outcome Payment Unit
unfolding require_payment_state record_payment_error
apply_creation_failure payment error =
    attempt payment (require_payment_state payment (PaymentStatus.created ∷ []))
      λ _. record_payment_error (record payment { attempts = payment.attempts + 1 }) error

unfoldable pub confirm_manual_payment : Payment → (now : Datetime) → Outcome Payment Unit
unfolding require_payment_state require_payment_transition
confirm_manual_payment payment now =
    attempt payment
      (raise_if (not (payment.provider is PaymentMode.manual)) payment_state
        >> require_payment_state payment (PaymentStatus.pending ∷ [])
        >> require_payment_transition payment.status PaymentStatus.succeeded)
      λ _.
        let paid = record payment { status = PaymentStatus.succeeded } in
        attempt paid (require_aware now)
          λ t. done (record paid { paid_at = some t; last_error_code = none }) tt
