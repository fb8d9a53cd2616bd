-- ===== src/Lifecycle/Payments.antt =====
-- app/domain/payments.py: the transition tables of payments and refunds.
use lanrouge_nails_bot.Base.{not, List, [], ◌∷◌, if◌then◌else◌}
use lanrouge_nails_bot.Enums.{
  PaymentStatus, payment_status_enum, RefundStatus, refund_status_enum, ◌is◌, contains,
}
use lanrouge_nails_bot.Errors.{Result, ok, payment_state, raise_if}
pub mod Laws

abbrev pub payment_transitions : PaymentStatus → List PaymentStatus
payment_transitions PaymentStatus.created =
    PaymentStatus.pending ∷ PaymentStatus.succeeded ∷ PaymentStatus.cancelled ∷ PaymentStatus.failed
    ∷ []
payment_transitions PaymentStatus.pending =
    PaymentStatus.succeeded ∷ PaymentStatus.cancelled ∷ PaymentStatus.failed ∷ []
payment_transitions PaymentStatus.succeeded =
    PaymentStatus.refund_pending ∷ PaymentStatus.partially_refunded ∷ PaymentStatus.refunded ∷ []
payment_transitions PaymentStatus.refund_pending =
    PaymentStatus.succeeded ∷ PaymentStatus.partially_refunded ∷ PaymentStatus.refunded ∷ []
payment_transitions PaymentStatus.partially_refunded =
    PaymentStatus.refund_pending ∷ PaymentStatus.refunded ∷ []
payment_transitions PaymentStatus.cancelled = []
payment_transitions PaymentStatus.failed = []
payment_transitions PaymentStatus.refunded = []

abbrev pub refund_transitions : RefundStatus → List RefundStatus
refund_transitions RefundStatus.pending =
    RefundStatus.succeeded ∷ RefundStatus.failed ∷ RefundStatus.cancelled ∷ []
refund_transitions RefundStatus.succeeded = []
refund_transitions RefundStatus.failed = []
refund_transitions RefundStatus.cancelled = []

unfoldable pub require_payment_transition : PaymentStatus → PaymentStatus → Result Unit
require_payment_transition current target =
    if current is target
    then ok tt
    else raise_if (not (contains target (payment_transitions current))) payment_state

unfoldable pub require_refund_transition : RefundStatus → RefundStatus → Result Unit
require_refund_transition current target =
    if current is target
    then ok tt
    else raise_if (not (contains target (refund_transitions current))) payment_state
