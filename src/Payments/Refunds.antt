-- ===== src/Payments/Refunds.antt =====
-- app/services/payment_service.py, `PaymentService` on a payment and one of its refunds. `mode` and
-- `supports_partial_refunds` are the provider's.
use lanrouge_nails_bot.Base.{
  ℕ, ◌+◌, ◌-◌, Bool, true, false, not, ◌&&◌, ◌||◌, List, [], ◌∷◌, ltb, ◌==◌, if◌then◌else◌, Option,
  none, some,
}
use lanrouge_nails_bot.Enums.{
  PaymentMode, payment_mode_enum, PaymentStatus, payment_status_enum, RefundStatus,
  refund_status_enum, ◌is◌, contains,
}
use lanrouge_nails_bot.Errors.{
  Error, ErrorCode, ProviderError, Result, ok, err, payment_state, value_error, provider_error,
  protocol_error, ◌>>=◌, ◌>>◌, raise_if,
}
use lanrouge_nails_bot.Text.{Text, same_text}
use lanrouge_nails_bot.Time.{Datetime, require_aware}
use lanrouge_nails_bot.Lifecycle.Payments.{require_payment_transition, require_refund_transition}
use lanrouge_nails_bot.Payments.Money.{Decimal, validate_money}
use lanrouge_nails_bot.Payments.Metadata.{Mapping, validate_safe_metadata}
use lanrouge_nails_bot.Payments.Records.{
  or_provider_error, Payment, Refund, ProviderRefund, PaymentRefundCommand, RefundCreate, Outcome,
  done, raised, attempt, and_then, final, is_id, is_missing_or, first_time,
}
use lanrouge_nails_bot.Payments.Charges.{
  require_provider, require_payment_state, required_provider_payment_id,
}
pub mod Steps
pub mod Ledger
pub mod Replay

-- A payment and one of its refunds, as the methods see them.
pub record Aggregates : Type 0 where
  pub payment : Payment
  pub refund : Refund

-- `_restore_payment_after_failed_refund`
unfoldable pub restored_status : ℕ → PaymentStatus
restored_status refunded_amount =
    if ltb 0 refunded_amount then PaymentStatus.partially_refunded else PaymentStatus.succeeded

unfoldable pub restore_payment_after_failed_refund : Aggregates → Outcome Aggregates Unit
unfolding restored_status require_payment_transition
restore_payment_after_failed_refund s =
    let target = restored_status s.payment.refunded_amount in
    attempt s (require_payment_transition s.payment.status target)
      λ _. done (record s { payment = record s.payment { status = target } }) tt

-- The branch of a refund that succeeded, its status being set: the amount is counted once.
unfoldable pub count_refund : (was_succeeded : Bool) → Aggregates → Outcome Aggregates Unit
count_refund true s = done s tt
count_refund false s =
    let updated_refunded = s.payment.refunded_amount + s.refund.amount in
    attempt s (raise_if (ltb s.payment.amount updated_refunded) payment_state)
      λ _. done (record s { payment = record s.payment { refunded_amount = updated_refunded } }) tt

unfoldable pub finish_status : Payment → PaymentStatus
finish_status payment =
    if payment.refunded_amount == payment.amount
    then PaymentStatus.refunded
    else PaymentStatus.partially_refunded

unfoldable pub finish_refund : ℕ → Aggregates → Outcome Aggregates Unit
unfolding finish_status require_payment_transition
finish_refund current s =
    let timed = record s {
      refund = record s.refund { succeeded_at = first_time s.refund.succeeded_at current };
    } in
    let target = finish_status timed.payment in
    attempt timed (require_payment_transition timed.payment.status target) λ _.
      done
        (record timed {
          payment = record timed.payment {
            status = target;
            refunded_at =
                if target is PaymentStatus.refunded
                then first_time timed.payment.refunded_at current
                else timed.payment.refunded_at;
          };
        })
        tt

-- `refund.failed_at = refund.failed_at or current`
unfoldable pub fail_refund : ℕ → Aggregates → Outcome Aggregates Unit
unfolding restore_payment_after_failed_refund
fail_refund current s =
    restore_payment_after_failed_refund
      (record s { refund = record s.refund { failed_at = first_time s.refund.failed_at current } })

-- The mutations of `apply_authoritative_refund`.
unfoldable pub settle_refund : Aggregates → ProviderRefund → ℕ → Outcome Aggregates Unit
unfolding count_refund finish_refund fail_refund
settle_refund s result current =
    let was_succeeded = s.refund.status is RefundStatus.succeeded in
    let known = record s {
      refund = record s.refund {
        provider_refund_id = some result.provider_refund_id;
        status = result.status;
        last_error_code = none;
      };
    } in
    if result.status is RefundStatus.succeeded
    then (and_then (count_refund was_succeeded known) (λ counted _. finish_refund current counted))
    else if contains result.status (RefundStatus.failed ∷ RefundStatus.cancelled ∷ [])
    then fail_refund current known
    else done known tt

module _ (mode : PaymentMode) where
  -- `_require_refund_belongs_to_payment`
  unfoldable pub require_refund_belongs_to_payment : Payment → Refund → Result Unit
  unfolding require_provider
  require_refund_belongs_to_payment payment refund =
      require_provider mode payment.provider
      >> raise_if
          (not (refund.business_id == payment.business_id)
            || not (is_id payment.id refund.payment_id)
            || not (refund.provider is payment.provider)
            || not (same_text refund.currency payment.currency))
          payment_state

  -- The tests of `apply_authoritative_refund`, which mutate nothing.
  unfoldable pub check_authoritative_refund : Aggregates → ProviderRefund → Result Unit
  check_authoritative_refund s result =
      require_refund_belongs_to_payment s.payment s.refund
      >> require_provider mode result.provider
      >> required_provider_payment_id s.payment
      >>= λ provider_payment_id.
          validate_money result.amount result.currency >>= λ (amount, currency).
          raise_if (not (same_text result.provider_payment_id provider_payment_id))
            (protocol_error ErrorCode.provider_refund_payment_id_mismatch)
          >> raise_if
              (not (amount == s.refund.amount) || not (same_text currency s.refund.currency))
              (protocol_error ErrorCode.provider_refund_money_mismatch)
          >> raise_if (not (is_missing_or s.refund.provider_refund_id result.provider_refund_id))
              (protocol_error ErrorCode.provider_refund_id_mismatch)
          >> require_refund_transition s.refund.status result.status

  unfoldable pub apply_authoritative_refund :
      Aggregates → ProviderRefund → (now : Datetime) → Outcome Aggregates Unit
  unfolding check_authoritative_refund settle_refund
  apply_authoritative_refund s result now =
      attempt s (require_aware now) λ current.
        attempt s (check_authoritative_refund s result) λ _. settle_refund s result current

  -- The tests of `new_refund`: the amount and the currency of the refund.
  unfoldable pub check_new_refund :
      (supports_partial_refunds : Bool)
      → Payment
      → RefundCreate
      → (committed_or_pending_amount : ℕ) → Result (ℕ × Text)
  unfolding require_provider require_payment_state validate_money require_payment_transition
  check_new_refund supports_partial_refunds payment values reserved =
      require_provider mode payment.provider
      >> raise_if (is_unsaved payment.id payment.provider_payment_id) payment_state
      >> raise_if
          (not (values.business_id == payment.business_id)
            || not (is_id payment.id values.payment_id))
          payment_state
      >> require_payment_state payment
          (PaymentStatus.succeeded ∷ PaymentStatus.partially_refunded ∷ [])
      >> validate_money values.amount values.currency
      >>= λ (amount, currency).
          raise_if (not (same_text currency payment.currency)) payment_state
          >> raise_if (ltb reserved payment.refunded_amount || ltb payment.amount reserved)
              payment_state
          >> raise_if (ltb (payment.amount - reserved) amount) payment_state
          >> raise_if (ltb amount (payment.amount - reserved) && not supports_partial_refunds)
              payment_state
          >> require_payment_transition payment.status PaymentStatus.refund_pending
          >> ok (amount, currency)
    where
      is_unsaved : Option ℕ → Option Text → Bool
      is_unsaved (some _) (some _) = false
      is_unsaved _ _ = true

  -- The metadata is validated after the status of the payment is set.
  unfoldable pub new_refund :
      (supports_partial_refunds : Bool)
      → Payment
      → RefundCreate
      → (committed_or_pending_amount : ℕ) → Outcome Payment Refund
  unfolding check_new_refund validate_safe_metadata
  new_refund supports_partial_refunds payment values reserved =
      attempt payment (check_new_refund supports_partial_refunds payment values reserved)
        λ (amount, currency).
          let held = record payment { status = PaymentStatus.refund_pending } in
          attempt held (validate_safe_metadata values.safe_metadata) λ metadata. done held (record {
            business_id = values.business_id;
            payment_id = values.payment_id;
            provider = payment.provider;
            provider_refund_id = none;
            idempotency_key = values.idempotency_key;
            amount = amount;
            currency = currency;
            status = RefundStatus.pending;
            reason_code = values.reason_code;
            safe_metadata = metadata;
            requested_by_user_id = values.requested_by_user_id;
            succeeded_at = none;
            failed_at = none;
            attempts = 0;
            last_error_code = none;
          })

  unfoldable pub prepare_refund_submission : Aggregates → Outcome Aggregates PaymentRefundCommand
  unfolding require_refund_belongs_to_payment required_provider_payment_id
  prepare_refund_submission s =
      attempt s
        (require_refund_belongs_to_payment s.payment s.refund
          >> raise_if (not (s.refund.status is RefundStatus.pending)) payment_state
          >> required_provider_payment_id s.payment)
        λ provider_payment_id.
          done (record s { refund = record s.refund { attempts = s.refund.attempts + 1 } })
            (record {
              provider_payment_id = provider_payment_id;
              idempotency_key = s.refund.idempotency_key;
              amount = s.refund.amount;
              currency = s.refund.currency;
              reason_code = s.refund.reason_code;
              safe_metadata = s.refund.safe_metadata;
            })

  unfoldable pub apply_refund_submission_failure :
      Aggregates → ProviderError → (now : Datetime) → Outcome Aggregates Unit
  unfolding require_refund_belongs_to_payment require_refund_transition
      restore_payment_after_failed_refund
  apply_refund_submission_failure s error now = attempt s (require_aware now) λ current.
      attempt s (require_refund_belongs_to_payment s.payment s.refund) λ _.
        if not (s.refund.status is RefundStatus.pending)
        then done s tt
        else (let noted = record s {
          refund = record s.refund { last_error_code = some error.code };
        } in
            if error.retryable
            then done noted tt
            else attempt noted (require_refund_transition noted.refund.status RefundStatus.failed)
                λ _. restore_payment_after_failed_refund (record noted {
                  refund = record noted.refund {
                    status = RefundStatus.failed;
                    failed_at = some current;
                  };
                }))

  unfoldable pub confirm_manual_refund : Aggregates → (now : Datetime) → Outcome Aggregates Unit
  unfolding required_provider_payment_id apply_authoritative_refund
  confirm_manual_refund s now =
      attempt s (manual_refund_id s.refund.provider_refund_id) λ provider_refund_id.
        attempt s (required_provider_payment_id s.payment) λ provider_payment_id.
          apply_authoritative_refund s
            (record {
              provider = PaymentMode.manual;
              provider_refund_id = provider_refund_id;
              provider_payment_id = provider_payment_id;
              status = RefundStatus.succeeded;
              amount = Decimal.fraction false s.refund.amount 2;
              currency = s.refund.currency;
            })
            now
    where
      manual_refund_id : Option Text → Result Text
      manual_refund_id none = err payment_state
      manual_refund_id (some id) =
          raise_if (not (s.payment.provider is PaymentMode.manual)) payment_state >> ok id

  -- `refund_with_provider`: `submit` is the provider's answer to the command. What the application
  -- of the answer mutated before raising is kept, and goes through the failure too.
  unfoldable pub refund_with_provider :
      (submit : PaymentRefundCommand → Result ProviderRefund)
      → Aggregates
      → (now : Datetime) → Outcome Aggregates ProviderRefund
  unfolding prepare_refund_submission apply_authoritative_refund apply_refund_submission_failure
  refund_with_provider submit s now = attempt s (require_aware now) λ _.
      and_then (prepare_refund_submission s) λ prepared command. caught (
        attempt prepared (submit command) λ result.
          and_then (apply_authoritative_refund prepared result now)
            λ applied _. done applied result)
    where
      -- `except PaymentProviderError`
      caught : Outcome Aggregates ProviderRefund → Outcome Aggregates ProviderRefund
      caught (done s' result) = done s' result
      caught (raised s' (provider_error error)) =
          and_then (apply_refund_submission_failure s' error now)
            λ failed _. raised failed (provider_error error)
      caught (raised s' e) = raised s' e

  -- `refresh_refund_from_provider`: `get_refund` is the provider's answer about an identifier.
  unfoldable pub refresh_refund_from_provider :
      (get_refund : Text → Result ProviderRefund)
      → Aggregates
      → (now : Datetime) → Outcome Aggregates ProviderRefund
  refresh_refund_from_provider get_refund s now =
      attempt s
        (require_aware now >>= λ _.
          require_refund_belongs_to_payment s.payment s.refund
          >> required_refund_id s.refund.provider_refund_id)
        λ provider_refund_id.
          let tried = record s { refund = record s.refund { attempts = s.refund.attempts + 1 } } in
          or_provider_error tried (get_refund provider_refund_id)
            (λ error.
              done
                (record tried {
                  refund = record tried.refund { last_error_code = some error.code };
                })
                tt)
            (λ result.
              and_then (apply_authoritative_refund tried result now)
                (λ applied _. done applied result))
    where
      required_refund_id : Option Text → Result Text
      required_refund_id none = err payment_state
      required_refund_id (some id) = ok id
