-- ===== src/Payments/Refunds/Steps.antt =====
-- app/services/payment_service.py: what one call does to the money of a payment and a refund.
use lanrouge_nails_bot.Base.{ℕ, ◌+◌, ◌≤◌, ◌≡◌, arith}
use lanrouge_nails_bot.Enums.{RefundStatus, refund_status_enum, PaymentMode}
use lanrouge_nails_bot.Errors.{ok, ProviderError}
use lanrouge_nails_bot.Time.{Datetime, require_aware}
use lanrouge_nails_bot.Lifecycle.Payments.{require_refund_transition}
use lanrouge_nails_bot.Payments.Records.{Refund, ProviderRefund, attempt-holds, final}
use lanrouge_nails_bot.Payments.Refunds.{
  Aggregates, restore_payment_after_failed_refund, count_refund, finish_refund, fail_refund,
  settle_refund, check_authoritative_refund, apply_authoritative_refund,
  apply_refund_submission_failure,
}

-- The money that a refund has given back, and the money that it may still give back.
abbrev pub counted_if : RefundStatus → ℕ → ℕ
counted_if RefundStatus.succeeded amount = amount
counted_if RefundStatus.pending amount = 0
counted_if RefundStatus.failed amount = 0
counted_if RefundStatus.cancelled amount = 0

abbrev pub held_if : RefundStatus → ℕ → ℕ
held_if RefundStatus.pending amount = amount
held_if RefundStatus.succeeded amount = 0
held_if RefundStatus.failed amount = 0
held_if RefundStatus.cancelled amount = 0

abbrev pub counted : Refund → ℕ
counted r = counted_if r.status r.amount

abbrev pub held : Refund → ℕ
held r = held_if r.status r.amount

-- The call keeps the amounts, counts what the refund gave back, and holds no more than it held.
abbrev pub Moves : Aggregates → Aggregates → Type 0
Moves s s' =
    (s'.payment.amount ≡ s.payment.amount)
    × (s'.payment.refunded_amount + counted s.refund
        ≡ s.payment.refunded_amount + counted s'.refund)
    × (counted s'.refund + held s'.refund ≤ counted s.refund + held s.refund)

-- A refund that may follow its transition changes the money as `Moves` says, also where a later
-- step raises.
pub settle_refund-Moves :
    (s : Aggregates) (result : ProviderRefund) (current : ℕ)
    → require_refund_transition s.refund.status result.status ≡ ok tt
    → s.payment.refunded_amount + held s.refund ≤ s.payment.amount
    → Moves s (final (settle_refund s result current))
unfolding settle_refund finish_refund fail_refund restore_payment_after_failed_refund count_refund
    require_refund_transition
settle_refund-Moves s result current h fits = ground arith

stays : (s : Aggregates) → Moves s s
stays s = ground arith

module _ (mode : PaymentMode) where
  check-transition :
      (s : Aggregates) (result : ProviderRefund)
      → check_authoritative_refund mode s result ≡ ok tt
      → require_refund_transition s.refund.status result.status ≡ ok tt
  unfolding check_authoritative_refund
  check-transition s result h = ground arith

  pub apply_authoritative_refund-Moves :
      (s : Aggregates) (result : ProviderRefund) (now : Datetime)
      → s.payment.refunded_amount + held s.refund ≤ s.payment.amount
      → Moves s (final (apply_authoritative_refund mode s result now))
  unfolding apply_authoritative_refund
  apply_authoritative_refund-Moves s result now fits =
      attempt-holds (Moves s) s (require_aware now) _ (stays s) λ current _.
        attempt-holds (Moves s) s (check_authoritative_refund mode s result) _ (stays s)
          λ _ h. settle_refund-Moves s result current (check-transition s result h) fits

  pub apply_refund_submission_failure-Moves :
      (s : Aggregates) (error : ProviderError) (now : Datetime)
      → Moves s (final (apply_refund_submission_failure mode s error now))
  unfolding apply_refund_submission_failure require_refund_transition
      restore_payment_after_failed_refund
  apply_refund_submission_failure-Moves s error now = ground arith
