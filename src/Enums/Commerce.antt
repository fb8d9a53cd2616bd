-- ===== src/Enums/Commerce.antt =====
-- app/domain/enums.py: payments and refunds, each with its numbering.
use lanrouge_nails_bot.Base.{ℕ, ◌≡◌, refl, some, List, [], ◌∷◌, get_elem?}
use lanrouge_nails_bot.Enums.Members.{Enum}

pub data PaymentMode : Type 0 where
  disabled manual yookassa : PaymentMode

abbrev pub payment_mode_index : PaymentMode → ℕ
payment_mode_index PaymentMode.disabled = 0
payment_mode_index PaymentMode.manual = 1
payment_mode_index PaymentMode.yookassa = 2

abbrev pub payment_mode_members : List PaymentMode
payment_mode_members = PaymentMode.disabled ∷ PaymentMode.manual ∷ PaymentMode.yookassa ∷ []

pub payment_mode_index_sound :
    (a : PaymentMode) → get_elem? payment_mode_members (payment_mode_index a) ≡ some a
payment_mode_index_sound PaymentMode.disabled = refl
payment_mode_index_sound PaymentMode.manual = refl
payment_mode_index_sound PaymentMode.yookassa = refl

instance abbrev pub payment_mode_enum : Enum PaymentMode
payment_mode_enum = record {
  index = payment_mode_index;
  members = payment_mode_members;
  index_sound = payment_mode_index_sound;
}

pub data PaymentStatus : Type 0 where
  created pending succeeded cancelled failed refund_pending partially_refunded refunded :
      PaymentStatus

abbrev pub payment_status_index : PaymentStatus → ℕ
payment_status_index PaymentStatus.created = 0
payment_status_index PaymentStatus.pending = 1
payment_status_index PaymentStatus.succeeded = 2
payment_status_index PaymentStatus.cancelled = 3
payment_status_index PaymentStatus.failed = 4
payment_status_index PaymentStatus.refund_pending = 5
payment_status_index PaymentStatus.partially_refunded = 6
payment_status_index PaymentStatus.refunded = 7

abbrev pub payment_status_members : List PaymentStatus
payment_status_members =
    PaymentStatus.created ∷ PaymentStatus.pending ∷ PaymentStatus.succeeded
    ∷ PaymentStatus.cancelled ∷ PaymentStatus.failed ∷ PaymentStatus.refund_pending
    ∷ PaymentStatus.partially_refunded ∷ PaymentStatus.refunded ∷ []

pub payment_status_index_sound :
    (a : PaymentStatus) → get_elem? payment_status_members (payment_status_index a) ≡ some a
payment_status_index_sound PaymentStatus.created = refl
payment_status_index_sound PaymentStatus.pending = refl
payment_status_index_sound PaymentStatus.succeeded = refl
payment_status_index_sound PaymentStatus.cancelled = refl
payment_status_index_sound PaymentStatus.failed = refl
payment_status_index_sound PaymentStatus.refund_pending = refl
payment_status_index_sound PaymentStatus.partially_refunded = refl
payment_status_index_sound PaymentStatus.refunded = refl

instance abbrev pub payment_status_enum : Enum PaymentStatus
payment_status_enum = record {
  index = payment_status_index;
  members = payment_status_members;
  index_sound = payment_status_index_sound;
}

pub data ManualPaymentStatus : Type 0 where
  awaiting_payment client_reported review_pending confirmed rejected expired cancelled :
      ManualPaymentStatus

abbrev pub manual_payment_status_index : ManualPaymentStatus → ℕ
manual_payment_status_index ManualPaymentStatus.awaiting_payment = 0
manual_payment_status_index ManualPaymentStatus.client_reported = 1
manual_payment_status_index ManualPaymentStatus.review_pending = 2
manual_payment_status_index ManualPaymentStatus.confirmed = 3
manual_payment_status_index ManualPaymentStatus.rejected = 4
manual_payment_status_index ManualPaymentStatus.expired = 5
manual_payment_status_index ManualPaymentStatus.cancelled = 6

abbrev pub manual_payment_status_members : List ManualPaymentStatus
manual_payment_status_members =
    ManualPaymentStatus.awaiting_payment ∷ ManualPaymentStatus.client_reported
    ∷ ManualPaymentStatus.review_pending ∷ ManualPaymentStatus.confirmed
    ∷ ManualPaymentStatus.rejected ∷ ManualPaymentStatus.expired ∷ ManualPaymentStatus.cancelled
    ∷ []

pub manual_payment_status_index_sound :
    (a : ManualPaymentStatus)
    → get_elem? manual_payment_status_members (manual_payment_status_index a) ≡ some a
manual_payment_status_index_sound ManualPaymentStatus.awaiting_payment = refl
manual_payment_status_index_sound ManualPaymentStatus.client_reported = refl
manual_payment_status_index_sound ManualPaymentStatus.review_pending = refl
manual_payment_status_index_sound ManualPaymentStatus.confirmed = refl
manual_payment_status_index_sound ManualPaymentStatus.rejected = refl
manual_payment_status_index_sound ManualPaymentStatus.expired = refl
manual_payment_status_index_sound ManualPaymentStatus.cancelled = refl

instance abbrev pub manual_payment_status_enum : Enum ManualPaymentStatus
manual_payment_status_enum = record {
  index = manual_payment_status_index;
  members = manual_payment_status_members;
  index_sound = manual_payment_status_index_sound;
}

pub data RefundStatus : Type 0 where
  pending succeeded failed cancelled : RefundStatus

abbrev pub refund_status_index : RefundStatus → ℕ
refund_status_index RefundStatus.pending = 0
refund_status_index RefundStatus.succeeded = 1
refund_status_index RefundStatus.failed = 2
refund_status_index RefundStatus.cancelled = 3

abbrev pub refund_status_members : List RefundStatus
refund_status_members =
    RefundStatus.pending ∷ RefundStatus.succeeded ∷ RefundStatus.failed ∷ RefundStatus.cancelled
    ∷ []

pub refund_status_index_sound :
    (a : RefundStatus) → get_elem? refund_status_members (refund_status_index a) ≡ some a
refund_status_index_sound RefundStatus.pending = refl
refund_status_index_sound RefundStatus.succeeded = refl
refund_status_index_sound RefundStatus.failed = refl
refund_status_index_sound RefundStatus.cancelled = refl

instance abbrev pub refund_status_enum : Enum RefundStatus
refund_status_enum = record {
  index = refund_status_index;
  members = refund_status_members;
  index_sound = refund_status_index_sound;
}
