-- ===== src/Errors.antt =====
-- app/domain/errors.py and the error classes beside it, and the results of code that may raise.
-- The message texts are left out: an error is its class.
use lanrouge_nails_bot.Base.{ℕ, List, ◌≡◌, refl, Bool, false, if◌then◌else◌, arith}

-- The codes of the payment errors: those that the services raise, and one that a provider's
-- adapter chose.
pub data ErrorCode : Type 0 where
  provider_cancellation_not_confirmed provider_payment_money_mismatch : ErrorCode
  provider_payment_id_mismatch provider_payment_metadata_mismatch : ErrorCode
  provider_refund_payment_id_mismatch provider_refund_money_mismatch : ErrorCode
  provider_refund_id_mismatch payment_state_rejected : ErrorCode
  reported : List ℕ → ErrorCode

-- `PaymentProviderError`
pub record ProviderError : Type 0 where
  pub code : ErrorCode
  pub retryable : Bool

pub data Error : Type 0 where
  value_error runtime_error domain authorization business_type_transition : Error
  staff_reassignment feature_disabled entity_not_found service_in_use window_validation : Error
  date_picker_validation window_state window_in_use workstation_state : Error
  privacy_consent_required booking_unavailable booking_conflict booking_limit : Error
  future_booking_limit portfolio_state crm_state waitlist_state review_state : Error
  repeat_booking_state broadcast_state appointment_not_found appointment_state : Error
  cancellation_deadline payment_state reservation_state privacy_state : Error
  provider_error : ProviderError → Error

-- How a call ends that leaves nothing else behind: it raises, or it returns a value.
pub data Result (V : Type 0) : Type 0 where
  err : Error → Result V
  ok : V → Result V

-- `if raises: raise e`
abbrev pub raise_if : Bool → Error → Result Unit
raise_if raises e = if raises then err e else ok tt

infixl 5 ◌>>=◌ ◌>>◌
abbrev pub ◌>>=◌ : {V B : Type 0} → Result V → (V → Result B) → Result B
err e >>= next = err e
ok value >>= next = next value

abbrev pub ◌>>◌ : {B : Type 0} → Result Unit → Result B → Result B
check >> next = check >>= λ _. next

-- `raise PaymentProviderProtocolError(code)`, which is never retryable
abbrev pub protocol_error : ErrorCode → Error
protocol_error c = provider_error (record { code = c; retryable = false })

-- The value of a call that returned.
pub >>=-eq-ok :
    {V B : Type 0} (m : Result V) (f : V → Result B) {b : B}
    → (m >>= f) ≡ ok b
    → (a : V) × (m ≡ ok a) × (f a ≡ ok b)
>>=-eq-ok (ok a) f h = (a, refl, h)
>>=-eq-ok (err e) f h = cc

pub ok-injective : {A : Type 0} {a b : A} → ok a ≡ ok b → a ≡ b
ok-injective h = cc

pub raise_if-ok : (c : Bool) (e : Error) {x : Unit} → raise_if c e ≡ ok x → c ≡ false
raise_if-ok c e h = ground arith
