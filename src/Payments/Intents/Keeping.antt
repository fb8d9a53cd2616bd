-- ===== src/Payments/Intents/Keeping.antt =====
-- app/services/payment_service.py: what the calls to the provider can do to a payment, whatever the
-- provider answers.
use lanrouge_nails_bot.Base.{ℕ, ◌+◌, ◌≤◌, ◌≡◌, refl, arith}
use lanrouge_nails_bot.Enums.{PaymentMode, PaymentStatus, payment_status_enum, is_refl}
use lanrouge_nails_bot.Errors.{Error, ProviderError, Result, ok, err, provider_error}
use lanrouge_nails_bot.Text.{Text}
use lanrouge_nails_bot.Time.{Datetime, require_aware}
use lanrouge_nails_bot.Lifecycle.Payments.{require_payment_transition}
use lanrouge_nails_bot.Payments.Records.{
  Payment, PaymentCreate, PaymentCreateCommand, PaymentCancelCommand, ProviderPayment, Outcome,
  done, raised, attempt-holds, and_then, or_provider_error, final,
}
use lanrouge_nails_bot.Payments.Charges.{
  settle_payment, check_authoritative_payment, apply_authoritative_payment, record_payment_error,
}
use lanrouge_nails_bot.Payments.Charges.Replay.{check-Accepted}
use lanrouge_nails_bot.Payments.Intents.{
  tried, check_creation, creation_command, check_refresh, check_cancellation, require_cancelled,
  apply_cancellation, apply_answer, create_with_provider, refresh_from_provider,
  cancel_with_provider, note_error,
}

-- The money and the identity of the payment stay, its status follows the transition table, and it
-- has at most one attempt more.
pub record IsKept (p q : Payment) : Type 0 where
  pub amount : q.amount ≡ p.amount
  pub currency : q.currency ≡ p.currency
  pub refunded_amount : q.refunded_amount ≡ p.refunded_amount
  pub business_id : q.business_id ≡ p.business_id
  pub appointment_id : q.appointment_id ≡ p.appointment_id
  pub idempotency_key : q.idempotency_key ≡ p.idempotency_key
  pub status : require_payment_transition p.status q.status ≡ ok tt
  pub fewer : p.attempts ≤ q.attempts
  pub attempts : q.attempts ≤ p.attempts + 1

transition_refl : (s : PaymentStatus) → require_payment_transition s s ≡ ok tt
unfolding require_payment_transition
transition_refl s = ground (arith, is_refl s)

same : (p : Payment) → IsKept p p
same p = record {
  amount = refl;
  currency = refl;
  refunded_amount = refl;
  business_id = refl;
  appointment_id = refl;
  idempotency_key = refl;
  status = transition_refl p.status;
  fewer = omega arith;
  attempts = omega arith;
}

-- What applying an answer keeps, the attempts too.
pub record IsSettled (p q : Payment) : Type 0 where
  pub amount : q.amount ≡ p.amount
  pub currency : q.currency ≡ p.currency
  pub refunded_amount : q.refunded_amount ≡ p.refunded_amount
  pub business_id : q.business_id ≡ p.business_id
  pub appointment_id : q.appointment_id ≡ p.appointment_id
  pub idempotency_key : q.idempotency_key ≡ p.idempotency_key
  pub status : require_payment_transition p.status q.status ≡ ok tt
  pub attempts : q.attempts ≡ p.attempts

settle-IsSettled :
    (p : Payment) (result : ProviderPayment) (target : PaymentStatus) (t : ℕ)
    → require_payment_transition p.status target ≡ ok tt
    → IsSettled p (final (settle_payment p result target t))
unfolding settle_payment
settle-IsSettled p result target t h = record {
  amount = ground arith;
  currency = ground arith;
  refunded_amount = ground arith;
  business_id = ground arith;
  appointment_id = ground arith;
  idempotency_key = ground arith;
  status = ground arith;
  attempts = ground arith;
}

unchanged : (p : Payment) → IsSettled p p
unchanged p = record {
  amount = refl;
  currency = refl;
  refunded_amount = refl;
  business_id = refl;
  appointment_id = refl;
  idempotency_key = refl;
  status = transition_refl p.status;
  attempts = refl;
}

one_attempt : (p q : Payment) → IsSettled (tried p) q → IsKept p q
one_attempt p q h = record {
  amount = h.amount;
  currency = h.currency;
  refunded_amount = h.refunded_amount;
  business_id = h.business_id;
  appointment_id = h.appointment_id;
  idempotency_key = h.idempotency_key;
  status = h.status;
  fewer = let e = h.attempts in omega arith;
  attempts = let e = h.attempts in omega arith;
}

record_payment_error-IsSettled :
    (p : Payment) (e : ProviderError) → IsSettled p (final (record_payment_error p e))
unfolding record_payment_error
record_payment_error-IsSettled p e = record {
  amount = ground arith;
  currency = ground arith;
  refunded_amount = ground arith;
  business_id = ground arith;
  appointment_id = ground arith;
  idempotency_key = ground arith;
  status = ground (arith, transition_refl p.status);
  attempts = ground arith;
}

note_error-IsSettled : (p : Payment) (e : ProviderError) → IsSettled p (final (note_error p e))
note_error-IsSettled p e = record {
  amount = refl;
  currency = refl;
  refunded_amount = refl;
  business_id = refl;
  appointment_id = refl;
  idempotency_key = refl;
  status = transition_refl p.status;
  attempts = refl;
}

apply-IsSettled :
    (mode : PaymentMode) (p : Payment) (result : ProviderPayment) (now : Datetime)
    → IsSettled p (final (apply_authoritative_payment mode p result now))
unfolding apply_authoritative_payment
apply-IsSettled mode p result now =
    attempt-holds (IsSettled p) p (require_aware now) _ (unchanged p) λ t _.
      attempt-holds (IsSettled p) p (check_authoritative_payment mode p result) _ (unchanged p)
        λ target accepted.
          settle-IsSettled p result target t (check-Accepted mode p result target accepted).4

final-and_then :
    {S A B : Type 0} (o : Outcome S A) (b : A → B)
    → final (and_then o (λ s a. done s (b a))) ≡ final o
final-and_then (done s a) b = refl
final-and_then (raised s e) b = refl

apply_answer-IsSettled :
    (mode : PaymentMode) (p : Payment) (result : ProviderPayment) (now : Datetime)
    → IsSettled p (final (apply_answer mode p result now))
unfolding apply_answer
apply_answer-IsSettled mode p result now =
    rw (final-and_then (apply_authoritative_payment mode p result now) (λ _. result))
      (apply-IsSettled mode p result now)

final-raised :
    {S A : Type 0} (B : Type 0) (o : Outcome S A) (e : Error)
    → final (and_then {B = B} o (λ s _. raised s e)) ≡ final o
final-raised B (done s a) e = refl
final-raised B (raised s e') e = refl

or_provider_error-holds :
    {S A B : Type 0} (P : S → Type 0) (s : S) (r : Result A) (note : ProviderError → Outcome S Unit)
    (k : A → Outcome S B)
    → P s
    → ((e : ProviderError) → P (final (note e)))
    → ((a : A) → P (final (k a)))
    → P (final (or_provider_error s r note k))
or_provider_error-holds P s (ok a) note k before noted after = after a
or_provider_error-holds {B = B} P s (err (provider_error e)) note k before noted after =
    rw (final-raised B (note e) (provider_error e)) (noted e)
or_provider_error-holds P s (err _) note k before noted after = before

-- Whatever the provider answers to a request to create the payment, to report it or to cancel it,
-- and however the call ends: the amount, the currency, the refunded amount, the owner and the
-- idempotency key stay, the status follows the transition table, and at most one attempt is
-- counted.
pub provider_calls-IsKept :
    (mode : PaymentMode) (p : Payment) (values : PaymentCreate) (key : Text) (now : Datetime)
    (create_payment : PaymentCreateCommand → Result ProviderPayment)
    (get_payment : Text → Result ProviderPayment)
    (cancel_payment : PaymentCancelCommand → Result ProviderPayment)
    → IsKept p (final (create_with_provider mode create_payment p values now))
      × IsKept p (final (refresh_from_provider mode get_payment p now))
      × IsKept p (final (cancel_with_provider mode cancel_payment p key now))
unfolding create_with_provider refresh_from_provider cancel_with_provider apply_cancellation
provider_calls-IsKept mode p values key now create_payment get_payment cancel_payment = (
  attempt-holds (IsKept p) p (check_creation p values now) _ (same p) λ _ _. one_attempt p _ (
      or_provider_error-holds (IsSettled (tried p)) (tried p)
        (create_payment (creation_command p values)) (record_payment_error (tried p)) _
        (unchanged (tried p)) (record_payment_error-IsSettled (tried p))
        (λ result. apply_answer-IsSettled mode (tried p) result now)),
  attempt-holds (IsKept p) p (check_refresh p now) _ (same p) λ id _. one_attempt p _ (
      or_provider_error-holds (IsSettled (tried p)) (tried p) (get_payment id)
        (note_error (tried p)) _ (unchanged (tried p)) (note_error-IsSettled (tried p))
        (λ result. apply_answer-IsSettled mode (tried p) result now)),
  attempt-holds (IsKept p) p (check_cancellation p now) _ (same p) λ _ _. one_attempt p _ (
      or_provider_error-holds (IsSettled (tried p)) (tried p)
        (cancel_payment (record {
          provider_payment_id = _;
          idempotency_key = key;
          amount = p.amount;
          currency = p.currency;
          safe_metadata = p.safe_metadata;
        }))
        (note_error (tried p)) _ (unchanged (tried p)) (note_error-IsSettled (tried p))
        (λ result.
          attempt-holds (IsSettled (tried p)) (tried p) (require_cancelled result) _
            (unchanged (tried p)) λ _ _. apply_answer-IsSettled mode (tried p) result now)),
)
