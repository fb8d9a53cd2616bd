-- ===== src/Payments/Charges/Replay.antt =====
-- app/services/payment_service.py: an authoritative payment that comes again, that is refused, and
-- that is applied.
use lanrouge_nails_bot.Base.{
  ℕ, ◌≡◌, refl, true, false, arith, Option, none, some, ◌==◌, ==→eq, eq→==, ap, ◌⊎◌, inl, inr,
}
use lanrouge_nails_bot.Enums.{
  PaymentMode, payment_mode_enum, PaymentStatus, payment_status_enum, is→eq, is_refl,
}
use lanrouge_nails_bot.Errors.{Error, ok, ◌>>◌, >>=-eq-ok}
use lanrouge_nails_bot.Text.{Text, same_text}
use lanrouge_nails_bot.Text.Same.{same_text_refl, same→eq}
use lanrouge_nails_bot.Time.{Datetime, aware, require_aware}
use lanrouge_nails_bot.Lifecycle.Payments.{require_payment_transition}
use lanrouge_nails_bot.Payments.Money.{validate_money}
use lanrouge_nails_bot.Payments.Records.{
  attempt-done, attempt-raised, Payment, ProviderPayment, done, raised, is_missing_or,
}
use lanrouge_nails_bot.Payments.Charges.{
  require_provider, check_authoritative_payment, settle_payment, apply_authoritative_payment,
  target_status, settle_time, reported_or_now, metadata_differs,
}

-- Everything that the tests of an accepted response have shown.
abbrev pub Accepted : PaymentMode → Payment → ProviderPayment → PaymentStatus → Type 0
Accepted mode p result target =
    (require_provider mode result.provider ≡ ok tt)
    × (validate_money result.amount result.currency ≡ ok (p.amount, p.currency))
    × (is_missing_or p.provider_payment_id result.provider_payment_id ≡ true)
    × (metadata_differs result.safe_metadata p.safe_metadata ≡ false)
    × (require_payment_transition p.status target ≡ ok tt)
    × (target ≡ target_status p.status result.status)

check-Accepted-of :
    (mode : PaymentMode) (p : Payment) (result : ProviderPayment) (target : PaymentStatus)
    → (amount : ℕ) (currency : Text)
    → (require_provider mode result.provider >> validate_money result.amount result.currency)
      ≡ ok (amount, currency)
    → check_authoritative_payment mode p result ≡ ok target
    → (amount == p.amount ≡ true)
      × (same_text currency p.currency ≡ true)
      × (require_provider mode result.provider ≡ ok tt)
      × (validate_money result.amount result.currency ≡ ok (amount, currency))
      × (is_missing_or p.provider_payment_id result.provider_payment_id ≡ true)
      × (metadata_differs result.safe_metadata p.safe_metadata ≡ false)
      × (require_payment_transition p.status target ≡ ok tt)
      × (target ≡ target_status p.status result.status)
unfolding check_authoritative_payment
check-Accepted-of mode p result target amount currency e h = ground arith

pub check-Accepted :
    (mode : PaymentMode) (p : Payment) (result : ProviderPayment) (target : PaymentStatus)
    → check_authoritative_payment mode p result ≡ ok target
    → Accepted mode p result target
unfolding check_authoritative_payment
check-Accepted mode p result target h =
    let ((amount, currency), e, _) =
      >>=-eq-ok
        (require_provider mode result.provider >> validate_money result.amount result.currency) _
        h in
    let (same_amount, same_currency, provider, money, id, metadata, transition, target_is) =
      check-Accepted-of mode p result target amount currency e h in
    (
      provider,
      rw (← ==→eq amount p.amount same_amount)
          (rw (← same→eq currency p.currency same_currency) money),
      id,
      metadata,
      transition,
      target_is,
    )

-- What a settled payment is.
settled :
    (p : Payment) (result : ProviderPayment) (target : PaymentStatus) (t : ℕ) (q : Payment)
    → settle_payment p result target t ≡ done q tt
    → (q.status ≡ target)
      × (q.amount ≡ p.amount)
      × (q.currency ≡ p.currency)
      × (q.safe_metadata ≡ p.safe_metadata)
      × (q.provider_payment_id ≡ some result.provider_payment_id)
unfolding settle_payment
settled p result target t q h = ground arith

settle_refunded :
    (p : Payment) (result : ProviderPayment) (target : PaymentStatus) (t : ℕ) (q : Payment)
    → settle_payment p result target t ≡ done q tt
    → q.refunded_amount ≡ p.refunded_amount
unfolding settle_payment
settle_refunded p result target t q h = ground arith

settle_again :
    (p : Payment) (result : ProviderPayment) (target : PaymentStatus) (t : ℕ) (q : Payment) (t' : ℕ)
    → settle_payment p result target t ≡ done q tt
    → settle_payment q result target t' ≡ done q tt
unfolding settle_payment settle_time reported_or_now
settle_again p result target t q t' h = ground arith

target_again :
    (current reported : PaymentStatus)
    → target_status (target_status current reported) reported ≡ target_status current reported
unfolding target_status
target_again current reported = ground arith

transition_refl : (s : PaymentStatus) → require_payment_transition s s ≡ ok tt
unfolding require_payment_transition
transition_refl s = ground (arith, is_refl s)

check_again :
    (mode : PaymentMode) (p : Payment) (result : ProviderPayment) (target : PaymentStatus)
    (q : Payment)
    → Accepted mode p result target
    → (q.status ≡ target)
      × (q.amount ≡ p.amount)
      × (q.currency ≡ p.currency)
      × (q.safe_metadata ≡ p.safe_metadata)
      × (q.provider_payment_id ≡ some result.provider_payment_id)
    → check_authoritative_payment mode q result ≡ ok target
unfolding check_authoritative_payment
check_again mode p result target q accepted same =
    let (status, amount, currency, metadata, id) = same in
    let (provider, money, known, repeated, transition, target_is) = accepted in
    let target_same : target_status target result.status ≡ target =
      rw target_is (target_again p.status result.status) in
    ground (
      arith,
      same_text_refl p.currency,
      same_text_refl result.provider_payment_id,
      eq→== p.amount p.amount refl,
      transition_refl target,
    )

first_or_same :
    (found : Option Text) (s : Text)
    → is_missing_or found s ≡ true
    → (found ≡ none) ⊎ (found ≡ some s)
first_or_same none s h = inl refl
first_or_same (some t) s h = inr (ap some (same→eq t s h))

provider_is_mode :
    (mode provider : PaymentMode) → require_provider mode provider ≡ ok tt → provider ≡ mode
unfolding require_provider
provider_is_mode mode provider h = is→eq provider mode ground arith

settle_returns :
    (p : Payment) (result : ProviderPayment) (target : PaymentStatus) (t : ℕ) (q : Payment)
    (e : Error)
    → (paid cancelled : ℕ) → (result.paid_at ≡ none) ⊎ (result.paid_at ≡ some (aware paid))
    → (result.cancelled_at ≡ none) ⊎ (result.cancelled_at ≡ some (aware cancelled))
    → settle_payment p result target t ≡ raised q e
    → q ≡ p
unfolding settle_payment settle_time reported_or_now
settle_returns p result target t q e paid cancelled hp hc h = ground arith

-- A provider's answer that was applied to a payment can be applied again at any clock to the payment
-- as it was left, with nothing in between: it changes nothing, neither the status nor a settlement
-- time.
pub apply_authoritative_payment_again :
    (mode : PaymentMode) (p : Payment) (result : ProviderPayment) (now : Datetime) (q : Payment)
    → apply_authoritative_payment mode p result now ≡ done q tt
    → (later : ℕ) → apply_authoritative_payment mode q result (aware later) ≡ done q tt
unfolding apply_authoritative_payment
apply_authoritative_payment_again mode p result now q h later =
    let (t, _, h') = attempt-done p (require_aware now) _ h in
    let (target, accepted, settles) =
      attempt-done p (check_authoritative_payment mode p result) _ h' in
    let again =
      check_again mode p result target q (check-Accepted mode p result target accepted)
        (settled p result target t q settles) in
    rw again (settle_again p result target t q later settles)

-- A provider's answer is applied only if its amount and its currency are those of the payment and
-- it names the payment's own provider object, or the first one; the status changes along the
-- transition table, and the amount, the currency and the refunded amount stay.
pub apply_authoritative_payment-trusted :
    (mode : PaymentMode) (p : Payment) (result : ProviderPayment) (now : Datetime) (q : Payment)
    → apply_authoritative_payment mode p result now ≡ done q tt
    → (result.provider ≡ mode)
      × (validate_money result.amount result.currency ≡ ok (p.amount, p.currency))
      × ((p.provider_payment_id ≡ none) ⊎ (p.provider_payment_id ≡ some result.provider_payment_id))
      × (q.provider_payment_id ≡ some result.provider_payment_id)
      × (require_payment_transition p.status q.status ≡ ok tt)
      × (q.amount ≡ p.amount)
      × (q.currency ≡ p.currency)
      × (q.refunded_amount ≡ p.refunded_amount)
unfolding apply_authoritative_payment
apply_authoritative_payment-trusted mode p result now q h =
    let (t, _, h') = attempt-done p (require_aware now) _ h in
    let (target, accepted, settles) =
      attempt-done p (check_authoritative_payment mode p result) _ h' in
    let (provider, money, known, _, transition, _) = check-Accepted mode p result target accepted in
    let (status, amount, currency, _, id) = settled p result target t q settles in
    (
      provider_is_mode mode result.provider provider,
      money,
      first_or_same p.provider_payment_id result.provider_payment_id known,
      id,
      rw status transition,
      amount,
      currency,
      settle_refunded p result target t q settles,
    )

-- A provider's answer that is refused leaves the payment as it was, unless a settlement time that
-- the answer reports has no timezone.
pub apply_authoritative_payment_refused :
    (mode : PaymentMode) (p : Payment) (result : ProviderPayment) (now : Datetime) (q : Payment)
    (e : Error)
    → (paid cancelled : ℕ) → (result.paid_at ≡ none) ⊎ (result.paid_at ≡ some (aware paid))
    → (result.cancelled_at ≡ none) ⊎ (result.cancelled_at ≡ some (aware cancelled))
    → apply_authoritative_payment mode p result now ≡ raised q e
    → q ≡ p
unfolding apply_authoritative_payment
apply_authoritative_payment_refused mode p result now q e paid cancelled hp hc h =
    elim (attempt-raised p (require_aware now) _ h) [
      | inl same ↦ same
      | inr (t, h') ↦ elim (attempt-raised p (check_authoritative_payment mode p result) _ h') [
        | inl same ↦ same
        | inr (target, h'') ↦ settle_returns p result target t q e paid cancelled hp hc h''
      ]
    ]
