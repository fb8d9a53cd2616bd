-- ===== src/Payments/Records.antt =====
-- app/database/models/payment.py, app/payments/providers/base.py and app/schemas/payment.py: the
-- payment aggregates, the provider's safe projections, and how a method on them ends. The columns
-- that no modelled method reads or writes are left out.
use lanrouge_nails_bot.Base.{
  ℕ, ◌≡◌, refl, Bool, true, false, List, [], ◌∷◌, Option, none, some, ◌==◌, get_elem?, ◌⊎◌, inl,
  inr,
}
use lanrouge_nails_bot.Enums.{Enum, PaymentMode, PaymentStatus, RefundStatus}
use lanrouge_nails_bot.Errors.{ProviderError, provider_error, Error, ErrorCode, Result, ok, err}
use lanrouge_nails_bot.Text.{Text, same_text}
use lanrouge_nails_bot.Time.{Datetime}
use lanrouge_nails_bot.Payments.Money.{Decimal}
use lanrouge_nails_bot.Payments.Metadata.{Mapping}

pub data PaymentType : Type 0 where
  deposit full_payment : PaymentType

abbrev pub payment_type_index : PaymentType → ℕ
payment_type_index PaymentType.deposit = 0
payment_type_index PaymentType.full_payment = 1

abbrev pub payment_type_members : List PaymentType
payment_type_members = PaymentType.deposit ∷ PaymentType.full_payment ∷ []

pub payment_type_index_sound :
    (a : PaymentType) → get_elem? payment_type_members (payment_type_index a) ≡ some a
payment_type_index_sound PaymentType.deposit = refl
payment_type_index_sound PaymentType.full_payment = refl

instance abbrev pub payment_type_enum : Enum PaymentType
payment_type_enum = record {
  index = payment_type_index;
  members = payment_type_members;
  index_sound = payment_type_index_sound;
}

pub data WebhookProcessingStatus : Type 0 where
  pending processed ignored failed : WebhookProcessingStatus

abbrev pub webhook_status_index : WebhookProcessingStatus → ℕ
webhook_status_index WebhookProcessingStatus.pending = 0
webhook_status_index WebhookProcessingStatus.processed = 1
webhook_status_index WebhookProcessingStatus.ignored = 2
webhook_status_index WebhookProcessingStatus.failed = 3

abbrev pub webhook_status_members : List WebhookProcessingStatus
webhook_status_members =
    WebhookProcessingStatus.pending ∷ WebhookProcessingStatus.processed
    ∷ WebhookProcessingStatus.ignored ∷ WebhookProcessingStatus.failed ∷ []

pub webhook_status_index_sound :
    (a : WebhookProcessingStatus)
    → get_elem? webhook_status_members (webhook_status_index a) ≡ some a
webhook_status_index_sound WebhookProcessingStatus.pending = refl
webhook_status_index_sound WebhookProcessingStatus.processed = refl
webhook_status_index_sound WebhookProcessingStatus.ignored = refl
webhook_status_index_sound WebhookProcessingStatus.failed = refl

instance abbrev pub webhook_status_enum : Enum WebhookProcessingStatus
webhook_status_enum = record {
  index = webhook_status_index;
  members = webhook_status_members;
  index_sound = webhook_status_index_sound;
}

pub record Payment : Type 0 where
  pub id : Option ℕ
  pub business_id : ℕ
  pub appointment_id : ℕ
  pub provider : PaymentMode
  pub provider_payment_id : Option Text
  pub idempotency_key : Text
  pub amount : ℕ
  pub refunded_amount : ℕ
  pub currency : Text
  pub status : PaymentStatus
  pub payment_type : PaymentType
  pub safe_metadata : Mapping
  pub confirmation_url : Option Text
  pub expires_at : Option ℕ
  pub paid_at : Option ℕ
  pub cancelled_at : Option ℕ
  pub refunded_at : Option ℕ
  pub attempts : ℕ
  pub last_error_code : Option ErrorCode

pub record Refund : Type 0 where
  pub business_id : ℕ
  pub payment_id : ℕ
  pub provider : PaymentMode
  pub provider_refund_id : Option Text
  pub idempotency_key : Text
  pub amount : ℕ
  pub currency : Text
  pub status : RefundStatus
  pub reason_code : Text
  pub safe_metadata : Mapping
  pub requested_by_user_id : Option ℕ
  pub succeeded_at : Option ℕ
  pub failed_at : Option ℕ
  pub attempts : ℕ
  pub last_error_code : Option ErrorCode

pub record PaymentWebhookEvent : Type 0 where
  pub business_id : ℕ
  pub payment_id : Option ℕ
  pub provider : PaymentMode
  pub event_key : Text
  pub event_type : Text
  pub provider_object_id : Text
  pub provider_payment_id : Text
  pub payload_sha256 : Text
  pub received_at : ℕ
  pub expires_at : ℕ
  pub status : WebhookProcessingStatus
  pub processed_at : Option ℕ
  pub attempts : ℕ
  pub last_error_code : Option ErrorCode

pub record ProviderPayment : Type 0 where
  pub provider : PaymentMode
  pub provider_payment_id : Text
  pub status : PaymentStatus
  pub amount : Decimal
  pub currency : Text
  pub safe_metadata : Mapping
  pub confirmation_url : Option Text
  pub paid_at : Option Datetime
  pub cancelled_at : Option Datetime

pub record ProviderRefund : Type 0 where
  pub provider : PaymentMode
  pub provider_refund_id : Text
  pub provider_payment_id : Text
  pub status : RefundStatus
  pub amount : Decimal
  pub currency : Text

pub record PaymentRefundCommand : Type 0 where
  pub provider_payment_id : Text
  pub idempotency_key : Text
  pub amount : ℕ
  pub currency : Text
  pub reason_code : Text
  pub safe_metadata : Mapping

pub record PaymentCreateCommand : Type 0 where
  pub business_id : ℕ
  pub appointment_id : ℕ
  pub idempotency_key : Text
  pub amount : ℕ
  pub currency : Text
  pub payment_type : PaymentType
  pub safe_metadata : Mapping
  pub return_url : Option Text
  pub description : Text

pub record PaymentCancelCommand : Type 0 where
  pub provider_payment_id : Text
  pub idempotency_key : Text
  pub amount : ℕ
  pub currency : Text
  pub safe_metadata : Mapping

pub record ProviderWebhookEvent : Type 0 where
  pub provider : PaymentMode
  pub event_key : Text
  pub event_type : Text
  pub provider_object_id : Text
  pub provider_payment_id : Text
  pub payload_sha256 : Text

-- The values of a payment that is asked for, once validated.
pub record PaymentCreate : Type 0 where
  pub business_id : ℕ
  pub appointment_id : ℕ
  pub provider : PaymentMode
  pub payment_type : PaymentType
  pub amount : ℕ
  pub currency : Text
  pub idempotency_key : Text
  pub safe_metadata : Mapping
  pub return_url : Option Text
  pub description : Text

-- The values of a refund that was asked for.
pub record RefundCreate : Type 0 where
  pub business_id : ℕ
  pub payment_id : ℕ
  pub amount : Decimal
  pub currency : Text
  pub idempotency_key : Text
  pub reason_code : Text
  pub safe_metadata : Mapping
  pub requested_by_user_id : Option ℕ

-- How a method that mutates `S` ends: with a value or an error, and with what it made of `S` until
-- then. Nothing is undone by raising.
pub data Outcome (S A : Type 0) : Type 0 where
  done : S → A → Outcome S A
  raised : S → Error → Outcome S A

-- Goes on with the value of a step that mutates nothing.
abbrev pub attempt : {S A B : Type 0} → S → Result A → (A → Outcome S B) → Outcome S B
attempt s (ok a) k = k a
attempt s (err e) k = raised s e

-- Goes on after a step that mutates.
abbrev pub and_then : {S A B : Type 0} → Outcome S A → (S → A → Outcome S B) → Outcome S B
and_then (done s a) k = k s a
and_then (raised s e) k = raised s e

abbrev pub final : {S A : Type 0} → Outcome S A → S
final (done s a) = s
final (raised s e) = s

-- Goes on with the provider's answer; `except PaymentProviderError` notes its error and raises it
-- again, and any other error goes through.
abbrev pub or_provider_error :
    {S A B : Type 0}
    → S
    → Result A
    → (ProviderError → Outcome S Unit)
    → (A → Outcome S B)
    → Outcome S B
or_provider_error s (ok a) note k = k a
or_provider_error s (err (provider_error e)) note k =
    and_then (note e) λ noted _. raised noted (provider_error e)
or_provider_error s (err e) note k = raised s e

-- What holds before a step and after each way to go on holds in the end.
pub attempt-holds :
    {S A B : Type 0} (P : S → Type 0) (s : S) (r : Result A) (k : A → Outcome S B)
    → P s
    → ((a : A) → r ≡ ok a → P (final (k a)))
    → P (final (attempt s r k))
attempt-holds P s (ok a) k before after = after a refl
attempt-holds P s (err e) k before after = before

-- What follows a step that mutates leads from what holds after the step to what holds in the end.
pub and_then-leads :
    {S A B : Type 0} (P Q : S → Type 0) (m : Outcome S A) (k : S → A → Outcome S B)
    → ((s : S) → P s → Q s)
    → P (final m)
    → ((s : S) (a : A) → m ≡ done s a → P s → Q (final (k s a)))
    → Q (final (and_then m k))
and_then-leads P Q (done s a) k weaker before after = after s a refl before
and_then-leads P Q (raised s e) k weaker before after = weaker s before

pub and_then-holds :
    {S A B : Type 0} (P : S → Type 0) (m : Outcome S A) (k : S → A → Outcome S B)
    → P (final m)
    → ((s : S) (a : A) → m ≡ done s a → P s → P (final (k s a)))
    → P (final (and_then m k))
and_then-holds P m k = and_then-leads P P m k λ _ h. h

-- The step before a call that returned.
pub attempt-done :
    {S A B : Type 0} (s : S) (r : Result A) (k : A → Outcome S B) {s' : S} {b : B}
    → attempt s r k ≡ done s' b
    → (a : A) × (r ≡ ok a) × (k a ≡ done s' b)
attempt-done s (ok a) k h = (a, refl, h)
attempt-done s (err e) k h = cc

pub and_then-done :
    {S A B : Type 0} (m : Outcome S A) (k : S → A → Outcome S B) {s' : S} {b : B}
    → and_then m k ≡ done s' b
    → (s : S) × (a : A) × (m ≡ done s a) × (k s a ≡ done s' b)
and_then-done (done s a) k h = (s, a, refl, h)
and_then-done (raised s e) k h = cc

pub done-state : {S A : Type 0} {s s' : S} {a a' : A} → done s a ≡ done s' a' → s ≡ s'
done-state h = cc

pub done-value : {S A : Type 0} {s s' : S} {a a' : A} → done s a ≡ done s' a' → a ≡ a'
done-value h = cc

pub Outcome-cases :
    {S A : Type 0} (m : Outcome S A)
    → ((s : S) × (a : A) × (m ≡ done s a)) ⊎ ((s : S) × (e : Error) × (m ≡ raised s e))
Outcome-cases (done s a) = inl (s, a, refl)
Outcome-cases (raised s e) = inr (s, e, refl)

-- A call that raised: at once, or in what follows the step.
pub attempt-raised :
    {S A B : Type 0} (s : S) (r : Result A) (k : A → Outcome S B) {s' : S} {e : Error}
    → attempt s r k ≡ raised s' e
    → (s' ≡ s) ⊎ ((a : A) × (k a ≡ raised s' e))
attempt-raised s (ok a) k h = inr (a, h)
attempt-raised s (err e) k h = inl cc

-- `found == expected`, of a value that may be missing
abbrev pub is_id : Option ℕ → ℕ → Bool
is_id none expected = false
is_id (some found) expected = found == expected

-- `found in (None, expected)`
abbrev pub is_missing_or : Option Text → Text → Bool
is_missing_or none expected = true
is_missing_or (some found) expected = same_text found expected

-- `found == expected`, of a text that may be missing
abbrev pub is_some_text : Option Text → Text → Bool
is_some_text none expected = false
is_some_text (some found) expected = same_text found expected

-- `value or otherwise`, of an optional datetime
abbrev pub first_time : Option ℕ → ℕ → Option ℕ
first_time none current = some current
first_time (some t) current = some t

-- `new or old`, of optional texts
abbrev pub text_or : Option Text → Option Text → Option Text
text_or none old = old
text_or (some []) old = old
text_or (some (c ∷ s)) old = some (c ∷ s)
