-- ===== src/Payments/Webhooks/Once.antt =====
-- app/services/payment_service.py: a webhook event is processed once.
use lanrouge_nails_bot.Base.{ℕ, ◌≡◌, arith}
use lanrouge_nails_bot.Enums.{PaymentMode}
use lanrouge_nails_bot.Errors.{err, payment_state}
use lanrouge_nails_bot.Time.{Datetime, aware}
use lanrouge_nails_bot.Payments.Records.{
  Payment, PaymentWebhookEvent, WebhookProcessingStatus, webhook_status_enum, ProviderPayment,
  ProviderRefund, done, raised,
}
use lanrouge_nails_bot.Payments.Charges.{require_provider}
use lanrouge_nails_bot.Payments.Webhooks.{
  PaymentEvent, RefundEvent, require_webhook_matches_payment, apply_payment_webhook_result,
  apply_refund_webhook_result,
}

-- An event that was applied matches nothing any more.
processed-refused :
    (mode : PaymentMode) (payment : Payment) (event : PaymentWebhookEvent)
    → event.status ≡ WebhookProcessingStatus.processed
    → require_webhook_matches_payment mode payment event ≡ err payment_state
unfolding require_webhook_matches_payment require_provider
processed-refused mode payment event h = ground arith

refund_processed :
    (mode : PaymentMode) (s : RefundEvent) (result : ProviderRefund) (now : Datetime)
    (s' : RefundEvent)
    → apply_refund_webhook_result mode s result now ≡ done s' tt
    → s'.event.status ≡ WebhookProcessingStatus.processed
unfolding apply_refund_webhook_result
refund_processed mode s result now s' h = ground arith

payment_processed :
    (mode : PaymentMode) (s : PaymentEvent) (result : ProviderPayment) (now : Datetime)
    (s' : PaymentEvent)
    → apply_payment_webhook_result mode s result now ≡ done s' tt
    → s'.event.status ≡ WebhookProcessingStatus.processed
unfolding apply_payment_webhook_result
payment_processed mode s result now s' h = ground arith

-- A refund's event that was applied is processed, and every later application of any answer to it
-- raises and leaves the event, the payment and the refund alone.
pub refund_webhook_once :
    (mode : PaymentMode) (s : RefundEvent) (result : ProviderRefund) (now : Datetime)
    (s' : RefundEvent)
    → apply_refund_webhook_result mode s result now ≡ done s' tt
    → (again : ProviderRefund) (later : ℕ)
    → (s'.event.status ≡ WebhookProcessingStatus.processed)
      × (apply_refund_webhook_result mode s' again (aware later) ≡ raised s' payment_state)
unfolding apply_refund_webhook_result
refund_webhook_once mode s result now s' h again later =
    let processed = refund_processed mode s result now s' h in
    (processed, ground (arith, processed-refused mode s'.aggregates.payment s'.event processed))

-- A payment's event that was applied is processed, and every later application of any answer to it
-- raises and leaves the event and the payment alone.
pub payment_webhook_once :
    (mode : PaymentMode) (s : PaymentEvent) (result : ProviderPayment) (now : Datetime)
    (s' : PaymentEvent)
    → apply_payment_webhook_result mode s result now ≡ done s' tt
    → (again : ProviderPayment) (later : ℕ)
    → (s'.event.status ≡ WebhookProcessingStatus.processed)
      × (apply_payment_webhook_result mode s' again (aware later) ≡ raised s' payment_state)
unfolding apply_payment_webhook_result
payment_webhook_once mode s result now s' h again later =
    let processed = payment_processed mode s result now s' h in
    (processed, ground (arith, processed-refused mode s'.payment s'.event processed))
