-- ===== src/Payments/Refunds/Ledger.antt =====
-- app/services/payment_coordinator.py, `_ensure_refund`, and app/repositories/payment_repository.py,
-- `sum_pending_refunds`: a payment with all its refunds, the steps that change them, and that
-- none of these gives back more than was paid.
use lanrouge_nails_bot.Base.{ℕ, ◌+◌, ◌≤◌, ◌≡◌, Bool, List, [], ◌∷◌, ◌++◌, arith}
use lanrouge_nails_bot.Enums.{PaymentMode, refund_status_enum}
use lanrouge_nails_bot.Errors.{ProviderError}
use lanrouge_nails_bot.Time.{Datetime}
use lanrouge_nails_bot.Payments.Records.{
  Payment, Refund, RefundCreate, ProviderRefund, Outcome, done, raised, final,
}
use lanrouge_nails_bot.Payments.Refunds.{
  Aggregates, new_refund, check_new_refund, apply_authoritative_refund,
  apply_refund_submission_failure,
}
use lanrouge_nails_bot.Payments.Refunds.Steps.{
  counted, held, Moves, apply_authoritative_refund-Moves, apply_refund_submission_failure-Moves,
}

-- `sum_pending_refunds`
abbrev pub sum_pending_refunds : List Refund → ℕ
sum_pending_refunds [] = 0
sum_pending_refunds (r ∷ rs) = held r + sum_pending_refunds rs

-- What the refunds that succeeded have given back.
abbrev pub sum_succeeded_refunds : List Refund → ℕ
sum_succeeded_refunds [] = 0
sum_succeeded_refunds (r ∷ rs) = counted r + sum_succeeded_refunds rs

pub record Account : Type 0 where
  pub payment : Payment
  pub refunds : List Refund

-- The amount is the one paid, the refunds given back add up to what the payment says, and those in
-- flight fit in the rest.
abbrev pub IsConserved : ℕ → Account → Type 0
IsConserved paid a =
    (a.payment.amount ≡ paid)
    × (a.payment.refunded_amount ≡ sum_succeeded_refunds a.refunds)
    × (a.payment.refunded_amount + sum_pending_refunds a.refunds ≤ a.payment.amount)

sum_pending-append :
    (rs qs : List Refund)
    → sum_pending_refunds (rs ++ qs) ≡ sum_pending_refunds rs + sum_pending_refunds qs
sum_pending-append [] qs = omega arith
sum_pending-append (r ∷ rs) qs = ground (arith, sum_pending-append rs qs)

sum_succeeded-append :
    (rs qs : List Refund)
    → sum_succeeded_refunds (rs ++ qs) ≡ sum_succeeded_refunds rs + sum_succeeded_refunds qs
sum_succeeded-append [] qs = omega arith
sum_succeeded-append (r ∷ rs) qs = ground (arith, sum_succeeded-append rs qs)

module _ (mode : PaymentMode) (supports_partial_refunds : Bool) where
  -- `_ensure_refund` with a key that no refund has: the new refund, beside the others. A request that
  -- raises leaves the account as it was, since its unit of work is rolled back.
  unfoldable pub ensure_refund : Account → RefundCreate → Outcome Account Unit
  unfolding new_refund
  ensure_refund a values = and_then_refund (
      new_refund mode supports_partial_refunds a.payment values
        (a.payment.refunded_amount + sum_pending_refunds a.refunds))
    where
      and_then_refund : Outcome Payment Refund → Outcome Account Unit
      and_then_refund (done payment refund) =
          done (record { payment = payment; refunds = refund ∷ a.refunds }) tt
      and_then_refund (raised payment e) = raised a e

  -- One call on the account: a refund that is requested, the provider's answer about one of the
  -- refunds, and its failure to answer. What a call that raised has mutated counts too.
  pub data Step : Account → Account → Type 0 where
    requested :
        (a b : Account) (values : RefundCreate) → ensure_refund a values ≡ done b tt → Step a b
    answered :
        (p : Payment) (before after : List Refund) (r : Refund) (result : ProviderRefund)
        (now : Datetime) (s : Aggregates)
        → final (apply_authoritative_refund mode (record { payment = p; refund = r }) result now)
          ≡ s
        → Step
            (record { payment = p; refunds = before ++ r ∷ after })
            (record { payment = s.payment; refunds = before ++ s.refund ∷ after })
    failed :
        (p : Payment) (before after : List Refund) (r : Refund) (error : ProviderError)
        (now : Datetime) (s : Aggregates)
        → final
            (apply_refund_submission_failure mode (record { payment = p; refund = r }) error now)
          ≡ s
        → Step
            (record { payment = p; refunds = before ++ r ∷ after })
            (record { payment = s.payment; refunds = before ++ s.refund ∷ after })

  pub data Reachable (a : Account) : Account → Type 0 where
    start : Reachable a a
    step : (b c : Account) → Reachable a b → Step b c → Reachable a c

replaced :
    {paid : ℕ} (p : Payment) (before after : List Refund) (r : Refund) (s : Aggregates)
    → IsConserved paid (record { payment = p; refunds = before ++ r ∷ after })
    → Moves (record { payment = p; refund = r }) s
    → IsConserved paid (record { payment = s.payment; refunds = before ++ s.refund ∷ after })
replaced p before after r s h moves = ground (
  arith,
  sum_pending-append before (r ∷ after),
  sum_succeeded-append before (r ∷ after),
  sum_pending-append before (s.refund ∷ after),
  sum_succeeded-append before (s.refund ∷ after),
)

fits :
    {paid : ℕ} (p : Payment) (before after : List Refund) (r : Refund)
    → IsConserved paid (record { payment = p; refunds = before ++ r ∷ after })
    → p.refunded_amount + held r ≤ p.amount
fits p before after r h = ground (arith, sum_pending-append before (r ∷ after))

module _ (mode : PaymentMode) (supports_partial_refunds : Bool) where
  ensure_refund-IsConserved :
      {paid : ℕ} (a b : Account) (values : RefundCreate)
      → IsConserved paid a
      → ensure_refund mode supports_partial_refunds a values ≡ done b tt
      → IsConserved paid b
  unfolding ensure_refund check_new_refund
  ensure_refund-IsConserved a b values h e = ground arith

  pub Step-IsConserved :
      {paid : ℕ} (a b : Account)
      → IsConserved paid a
      → Step mode supports_partial_refunds a b
      → IsConserved paid b
  Step-IsConserved _ _ h (requested a b values e) = ensure_refund-IsConserved a b values h e
  Step-IsConserved _ _ h (answered p before after r result now s e) =
      replaced p before after r s h (
        rw (← e) (
          apply_authoritative_refund-Moves mode (record { payment = p; refund = r }) result now
            (fits p before after r h)))
  Step-IsConserved _ _ h (failed p before after r error now s e) = replaced p before after r s h (
      rw (← e)
        (apply_refund_submission_failure-Moves mode (record { payment = p; refund = r }) error now))

  pub Reachable-IsConserved :
      {paid : ℕ} (a b : Account)
      → IsConserved paid a
      → Reachable mode supports_partial_refunds a b
      → IsConserved paid b
  Reachable-IsConserved a _ h start = h
  Reachable-IsConserved a _ h (step b c path s) =
      Step-IsConserved b c (Reachable-IsConserved a b h path) s

-- Over every sequence of refunds that are requested, answered, answered again and failed, from a
-- payment without refunds: the refunds that succeeded add up to the refunded amount of the
-- payment, and together with those in flight they never exceed what was paid. Calls that raise
-- count with all that they mutated.
pub refunds_within_payment :
    (mode : PaymentMode) (supports_partial_refunds : Bool) (p : Payment)
    → p.refunded_amount ≡ 0
    → (a : Account)
    → Reachable mode supports_partial_refunds (record { payment = p; refunds = [] }) a
    → (a.payment.refunded_amount ≡ sum_succeeded_refunds a.refunds)
      × (sum_succeeded_refunds a.refunds + sum_pending_refunds a.refunds ≤ p.amount)
refunds_within_payment mode supports_partial_refunds p none_yet a path = ground (
  arith,
  Reachable-IsConserved mode supports_partial_refunds {paid = p.amount}
      (record { payment = p; refunds = [] }) a ground arith path,
)
