-- ===== src/Payments/Webhooks.antt =====
-- app/services/payment_service.py: webhook events of payments and refunds, which are applied through
-- the provider's authoritative answer; app/services/payment_coordinator.py, `_record_apply_failure`
-- and the application of a refund's answer around it.
use lanrouge_nails_bot.Base.{
  ℕ, ◌+◌, Bool, true, false, not, ◌&&◌, ◌||◌, List, [], ◌∷◌, ◌==◌, ltb, leb, if◌then◌else◌, Option,
  none, some,
}
use lanrouge_nails_bot.Enums.{PaymentMode, payment_mode_enum, ◌is◌, contains}
use lanrouge_nails_bot.Errors.{
  value_error, Error, ErrorCode, ProviderError, Result, ok, err, payment_state, provider_error,
  runtime_error, ◌>>=◌, ◌>>◌, raise_if,
}
use lanrouge_nails_bot.Text.{Text, same_text, has_prefix}
use lanrouge_nails_bot.Time.{days, Datetime, naive, aware, require_aware}
use lanrouge_nails_bot.Payments.Records.{
  Payment, Refund, PaymentWebhookEvent, WebhookProcessingStatus, webhook_status_enum,
  or_provider_error, ProviderWebhookEvent, ProviderPayment, ProviderRefund, Outcome, done, raised,
  attempt, and_then, final, is_some_text,
}
use lanrouge_nails_bot.Payments.Charges.{
  require_provider, required_provider_payment_id, apply_authoritative_payment,
}
use lanrouge_nails_bot.Payments.Refunds.{
  Aggregates, require_refund_belongs_to_payment, apply_authoritative_refund,
}
pub mod Once

-- An event with the payment that it is about.
pub record PaymentEvent : Type 0 where
  pub payment : Payment
  pub event : PaymentWebhookEvent

-- An event with the refund that it is about.
pub record RefundEvent : Type 0 where
  pub aggregates : Aggregates
  pub event : PaymentWebhookEvent

-- "payment."
abbrev pub payment_prefix : Text
payment_prefix = b'p' ∷ b'a' ∷ b'y' ∷ b'm' ∷ b'e' ∷ b'n' ∷ b't' ∷ b'.' ∷ []

-- "refund."
abbrev pub refund_prefix : Text
refund_prefix = b'r' ∷ b'e' ∷ b'f' ∷ b'u' ∷ b'n' ∷ b'd' ∷ b'.' ∷ []

-- The end of an event that was applied.
abbrev pub processed_event : PaymentWebhookEvent → Option ℕ → ℕ → PaymentWebhookEvent
processed_event event payment_id current = record event {
  payment_id = payment_id;
  status = WebhookProcessingStatus.processed;
  processed_at = some current;
  last_error_code = none;
}

-- `apply_webhook_provider_failure`
unfoldable pub apply_webhook_provider_failure :
    PaymentWebhookEvent → ProviderError → (now : Datetime) → Outcome PaymentWebhookEvent Unit
apply_webhook_provider_failure event error now =
    let noted = record event { last_error_code = some error.code } in
    if error.retryable
    then done noted tt
    else (let closed = record noted { status = WebhookProcessingStatus.failed } in
        attempt closed (require_aware now) λ t. done (record closed { processed_at = some t }) tt)

module _ (mode : PaymentMode) where
  -- `_require_webhook_matches_payment`
  unfoldable pub require_webhook_matches_payment : Payment → PaymentWebhookEvent → Result Unit
  require_webhook_matches_payment payment event =
      require_provider mode payment.provider
      >> raise_if (not (event.status is WebhookProcessingStatus.pending)) payment_state
      >> raise_if
          (not (event.business_id == payment.business_id)
            || not (event.provider is payment.provider))
          payment_state
      >> required_provider_payment_id payment
      >>= λ id. raise_if (not (same_text event.provider_payment_id id)) payment_state

  unfoldable pub apply_payment_webhook_result :
      PaymentEvent → ProviderPayment → (now : Datetime) → Outcome PaymentEvent Unit
  apply_payment_webhook_result s result now = attempt s (require_aware now) λ current.
      attempt s
        (require_webhook_matches_payment s.payment s.event
          >> raise_if (not (has_prefix payment_prefix s.event.event_type)) payment_state)
        λ _. applied (apply_authoritative_payment mode s.payment result now) current
    where
      applied : Outcome Payment Unit → ℕ → Outcome PaymentEvent Unit
      applied (done payment _) current =
          done (record { payment = payment; event = processed_event s.event payment.id current }) tt
      applied (raised payment e) current = raised (record s { payment = payment }) e

  unfoldable pub apply_refund_webhook_result :
      RefundEvent → ProviderRefund → (now : Datetime) → Outcome RefundEvent Unit
  apply_refund_webhook_result s result now = attempt s (require_aware now) λ current.
      attempt s
        (require_webhook_matches_payment s.aggregates.payment s.event
          >> require_refund_belongs_to_payment mode s.aggregates.payment s.aggregates.refund
          >> raise_if (not (has_prefix refund_prefix s.event.event_type)) payment_state
          >> raise_if
              (not (is_some_text s.aggregates.refund.provider_refund_id s.event.provider_object_id))
              payment_state)
        λ _. applied (apply_authoritative_refund mode s.aggregates result now) current
    where
      applied : Outcome Aggregates Unit → ℕ → Outcome RefundEvent Unit
      applied (done aggregates _) current =
          done
            (record {
              aggregates = aggregates;
              event = processed_event s.event aggregates.payment.id current;
            })
            tt
      applied (raised aggregates e) current = raised (record s { aggregates = aggregates }) e

  unfoldable pub new_webhook_event :
      (business_id : ℕ)
      → ProviderWebhookEvent
      → (received_at : Datetime) → (retention_days : ℕ) → Result PaymentWebhookEvent
  new_webhook_event business_id event received_at retention_days =
      require_provider mode event.provider
      >> raise_if (leb business_id 0 || not (leb 1 retention_days && leb retention_days 365))
          value_error
      >> require_aware received_at
      >>= λ current. ok (record {
        business_id = business_id;
        payment_id = none;
        provider = event.provider;
        event_key = event.event_key;
        event_type = event.event_type;
        provider_object_id = event.provider_object_id;
        provider_payment_id = event.provider_payment_id;
        payload_sha256 = event.payload_sha256;
        received_at = current;
        expires_at = current + days retention_days;
        status = WebhookProcessingStatus.pending;
        processed_at = none;
        attempts = 0;
        last_error_code = none;
      })

  unfoldable pub process_payment_webhook :
      (get_payment : Text → Result ProviderPayment)
      → PaymentEvent
      → (now : Datetime) → Outcome PaymentEvent ProviderPayment
  process_payment_webhook get_payment s now =
      attempt s
        (require_aware now >>= λ _.
          require_webhook_matches_payment s.payment s.event
          >> raise_if (not (has_prefix payment_prefix s.event.event_type)) payment_state)
        λ _.
          let tried = record s { event = record s.event { attempts = s.event.attempts + 1 } } in
          or_provider_error tried (get_payment s.event.provider_payment_id)
            (λ error. noted tried (apply_webhook_provider_failure tried.event error now))
            (λ result.
              and_then (apply_payment_webhook_result tried result now)
                (λ applied _. done applied result))
    where
      noted : PaymentEvent → Outcome PaymentWebhookEvent Unit → Outcome PaymentEvent Unit
      noted tried (done event _) = done (record tried { event = event }) tt
      noted tried (raised event e) = raised (record tried { event = event }) e

  unfoldable pub process_refund_webhook :
      (get_refund : Text → Result ProviderRefund)
      → RefundEvent
      → (now : Datetime) → Outcome RefundEvent ProviderRefund
  process_refund_webhook get_refund s now =
      attempt s
        (require_aware now >>= λ _.
          require_webhook_matches_payment s.aggregates.payment s.event
          >> require_refund_belongs_to_payment mode s.aggregates.payment s.aggregates.refund
          >> raise_if (not (has_prefix refund_prefix s.event.event_type)) payment_state
          >> raise_if
              (not (is_some_text s.aggregates.refund.provider_refund_id s.event.provider_object_id))
              payment_state)
        λ _.
          let tried = record s { event = record s.event { attempts = s.event.attempts + 1 } } in
          or_provider_error tried (get_refund s.event.provider_object_id)
            (λ error. noted tried (apply_webhook_provider_failure tried.event error now))
            (λ result.
              and_then (apply_refund_webhook_result tried result now)
                (λ applied _. done applied result))
    where
      noted : RefundEvent → Outcome PaymentWebhookEvent Unit → Outcome RefundEvent Unit
      noted tried (done event _) = done (record tried { event = event }) tt
      noted tried (raised event e) = raised (record tried { event = event }) e

-- `_record_apply_failure`: the event is closed and the transaction commits.
abbrev pub record_apply_failure : PaymentWebhookEvent → Error → ℕ → PaymentWebhookEvent
record_apply_failure event error now = record event {
  status = WebhookProcessingStatus.failed;
  processed_at = some now;
  last_error_code = some (failure_code error);
}
  where
    failure_code : Error → ErrorCode
    failure_code (provider_error error) = error.code
    failure_code _ = ErrorCode.payment_state_rejected
