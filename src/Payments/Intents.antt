-- ===== src/Payments/Intents.antt =====
-- app/services/payment_service.py, `PaymentService`: local payment intents and the calls that ask the
-- provider about them. The provider is a parameter: a function from a command to its answer.
use lanrouge_nails_bot.Base.{
  ℕ, zero, suc, ◌+◌, ◌/◌, ◌%◌, Bool, true, false, not, ◌&&◌, ◌||◌, List, [], ◌∷◌, ◌++◌, length, ltb,
  ◌==◌, if◌then◌else◌, Option, none, some,
}
use lanrouge_nails_bot.Enums.{
  PaymentMode, payment_mode_enum, PaymentStatus, payment_status_enum, ◌is◌,
}
use lanrouge_nails_bot.Errors.{
  ErrorCode, ProviderError, Result, ok, err, payment_state, protocol_error, ◌>>=◌, ◌>>◌, raise_if,
}
use lanrouge_nails_bot.Text.{Text, same_text}
use lanrouge_nails_bot.Time.{Datetime, require_aware}
use lanrouge_nails_bot.Payments.Metadata.{Mapping, put, validate_safe_metadata}
use lanrouge_nails_bot.Payments.Records.{
  Payment, PaymentType, payment_type_enum, PaymentCreate, PaymentCreateCommand,
  PaymentCancelCommand, ProviderPayment, Outcome, done, raised, attempt, and_then,
  or_provider_error,
}
use lanrouge_nails_bot.Payments.Charges.{
  require_provider, require_payment_state, required_provider_payment_id, metadata_differs,
  record_payment_error, apply_authoritative_payment,
}
pub mod Keeping

-- `str(n)`, on fuel: a number has at most as many digits as units, and one more for zero.
unfoldable pub digits : ℕ → ℕ → Text
digits zero n = []
digits (suc fuel) n =
    let rest = digits fuel (n / 10) in
    if ltb n 10 then (b'0' + n) ∷ [] else rest ++ (b'0' + n % 10) ∷ []

abbrev pub str : ℕ → Text
str n = digits (suc n) n

-- "business_id"
abbrev pub business_id_key : Text
business_id_key = b'b' ∷ b'u' ∷ b's' ∷ b'i' ∷ b'n' ∷ b'e' ∷ b's' ∷ b's' ∷ b'_' ∷ b'i' ∷ b'd' ∷ []

-- "appointment_id"
abbrev pub appointment_id_key : Text
appointment_id_key =
    b'a' ∷ b'p' ∷ b'p' ∷ b'o' ∷ b'i' ∷ b'n' ∷ b't' ∷ b'm' ∷ b'e' ∷ b'n' ∷ b't' ∷ b'_' ∷ b'i' ∷ b'd'
    ∷ []

-- `_intent_metadata`
unfoldable pub intent_metadata : PaymentCreate → Result Mapping
intent_metadata values = validate_safe_metadata (
    put (put values.safe_metadata business_id_key (str values.business_id)) appointment_id_key
      (str values.appointment_id))

-- `==` of two dicts, whose keys are unique
abbrev pub same_mapping : Mapping → Mapping → Bool
same_mapping a b = (length a == length b) && not (metadata_differs b a)

-- `aware_utc(expires_at) if expires_at is not None else None`
unfoldable pub optional_instant : Option Datetime → Result (Option ℕ)
optional_instant none = ok none
optional_instant (some t) = require_aware t >>= λ instant. ok (some instant)

unfoldable pub require_same_intent : Payment → PaymentCreate → Result Unit
require_same_intent payment values = intent_metadata values >>= λ metadata.
    raise_if
      (not (payment.business_id == values.business_id)
        || not (payment.appointment_id == values.appointment_id)
        || not (payment.provider is values.provider)
        || not (payment.payment_type is values.payment_type)
        || not (payment.amount == values.amount)
        || not (same_text payment.currency values.currency)
        || not (same_mapping payment.safe_metadata metadata)
        || not (same_text payment.idempotency_key values.idempotency_key))
      payment_state

-- `payment.attempts += 1`
abbrev pub tried : Payment → Payment
tried payment = record payment { attempts = payment.attempts + 1 }

-- `payment.last_error_code = exc.code`
abbrev pub note_error : Payment → ProviderError → Outcome Payment Unit
note_error payment error = done (record payment { last_error_code = some error.code }) tt

unfoldable pub check_creation : Payment → PaymentCreate → (now : Datetime) → Result Unit
check_creation payment values now = require_aware now >>= λ _.
    require_same_intent payment values >> require_payment_state payment (PaymentStatus.created ∷ [])

abbrev pub creation_command : Payment → PaymentCreate → PaymentCreateCommand
creation_command payment values = record {
  business_id = payment.business_id;
  appointment_id = payment.appointment_id;
  idempotency_key = payment.idempotency_key;
  amount = payment.amount;
  currency = payment.currency;
  payment_type = payment.payment_type;
  safe_metadata = payment.safe_metadata;
  return_url = values.return_url;
  description = values.description;
}

unfoldable pub check_refresh : Payment → (now : Datetime) → Result Text
check_refresh payment now = require_aware now >>= λ _. required_provider_payment_id payment

unfoldable pub check_cancellation : Payment → (now : Datetime) → Result Text
check_cancellation payment now = require_aware now >>= λ _.
    require_payment_state payment (PaymentStatus.created ∷ PaymentStatus.pending ∷ [])
    >> required_provider_payment_id payment

unfoldable pub require_cancelled : ProviderPayment → Result Unit
require_cancelled result =
    raise_if (not (result.status is PaymentStatus.cancelled))
      (protocol_error ErrorCode.provider_cancellation_not_confirmed)

module _ (mode : PaymentMode) where
  unfoldable pub new_payment : PaymentCreate → (expires_at : Option Datetime) → Result Payment
  new_payment values expires_at =
      require_provider mode values.provider >> optional_instant expires_at >>= λ expiry.
      intent_metadata values >>= λ metadata. ok (record {
        id = none;
        business_id = values.business_id;
        appointment_id = values.appointment_id;
        provider = values.provider;
        provider_payment_id = none;
        idempotency_key = values.idempotency_key;
        amount = values.amount;
        refunded_amount = 0;
        currency = values.currency;
        status = PaymentStatus.created;
        payment_type = values.payment_type;
        safe_metadata = metadata;
        confirmation_url = none;
        expires_at = expiry;
        paid_at = none;
        cancelled_at = none;
        refunded_at = none;
        attempts = 0;
        last_error_code = none;
      })

  -- The answer applied, and handed to the caller.
  unfoldable pub apply_answer :
      Payment → ProviderPayment → (now : Datetime) → Outcome Payment ProviderPayment
  apply_answer payment result now =
      and_then (apply_authoritative_payment mode payment result now)
        λ applied _. done applied result

  unfoldable pub create_with_provider :
      (create_payment : PaymentCreateCommand → Result ProviderPayment)
      → Payment
      → PaymentCreate
      → (now : Datetime) → Outcome Payment ProviderPayment
  create_with_provider create_payment payment values now =
      attempt payment (check_creation payment values now) λ _.
        or_provider_error (tried payment) (create_payment (creation_command payment values))
          (record_payment_error (tried payment)) (λ result. apply_answer (tried payment) result now)

  unfoldable pub refresh_from_provider :
      (get_payment : Text → Result ProviderPayment)
      → Payment
      → (now : Datetime) → Outcome Payment ProviderPayment
  refresh_from_provider get_payment payment now =
      attempt payment (check_refresh payment now) λ provider_payment_id.
        or_provider_error (tried payment) (get_payment provider_payment_id)
          (note_error (tried payment)) (λ result. apply_answer (tried payment) result now)

  -- A cancellation is applied only if the provider confirms it.
  unfoldable pub apply_cancellation :
      Payment → ProviderPayment → (now : Datetime) → Outcome Payment ProviderPayment
  apply_cancellation payment result now =
      attempt payment (require_cancelled result) λ _. apply_answer payment result now

  unfoldable pub cancel_with_provider :
      (cancel_payment : PaymentCancelCommand → Result ProviderPayment)
      → Payment
      → (idempotency_key : Text) → (now : Datetime) → Outcome Payment ProviderPayment
  cancel_with_provider cancel_payment payment idempotency_key now =
      attempt payment (check_cancellation payment now) λ provider_payment_id.
        or_provider_error (tried payment)
          (cancel_payment (record {
            provider_payment_id = provider_payment_id;
            idempotency_key = idempotency_key;
            amount = payment.amount;
            currency = payment.currency;
            safe_metadata = payment.safe_metadata;
          }))
          (note_error (tried payment)) (λ result. apply_cancellation (tried payment) result now)
