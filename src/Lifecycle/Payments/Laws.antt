-- ===== src/Lifecycle/Payments/Laws.antt =====
-- What every sequence of accepted changes of a payment's or a refund's status does.
use lanrouge_nails_bot.Base.{ℕ, suc, ◌≤◌, ◌≡◌, Bool, true, false, List, ◌⊎◌, arith}
use lanrouge_nails_bot.Enums.{
  PaymentStatus, payment_status_enum, RefundStatus, refund_status_enum, ◌is◌, contains,
}
use lanrouge_nails_bot.Errors.{ok}
use lanrouge_nails_bot.Lifecycle.Runs.{run, run-closed, run-gate, changes, run-rank}
use lanrouge_nails_bot.Lifecycle.Payments.{require_payment_transition, require_refund_transition}

-- The client's money has reached the business, all or part of it perhaps returned since.
abbrev pub is_settled : PaymentStatus → Bool
is_settled PaymentStatus.succeeded = true
is_settled PaymentStatus.refund_pending = true
is_settled PaymentStatus.partially_refunded = true
is_settled PaymentStatus.refunded = true
is_settled _ = false

settled_gate :
    (s t : PaymentStatus)
    → require_payment_transition s t ≡ ok tt
    → is_settled s ≡ false
    → (t ≡ PaymentStatus.succeeded) ⊎ (is_settled t ≡ false)
unfolding require_payment_transition
settled_gate s t h out = ground arith

-- A payment that is not settled becomes settled only by a run of accepted changes that has a
-- change to `succeeded`: nothing is refunded that was never paid.
pub refund_needs_payment :
    (s : PaymentStatus) (ts : List PaymentStatus) (u : PaymentStatus)
    → run require_payment_transition s ts ≡ ok u
    → is_settled s ≡ false
    → is_settled u ≡ true
    → contains PaymentStatus.succeeded ts ≡ true
refund_needs_payment =
    run-gate require_payment_transition is_settled PaymentStatus.succeeded settled_gate

settled_step :
    (s t : PaymentStatus)
    → require_payment_transition s t ≡ ok tt
    → is_settled s ≡ true
    → is_settled t ≡ true
unfolding require_payment_transition
settled_step s t h i = ground arith

-- A settled payment stays settled: no accepted changes make it cancelled, failed or unpaid.
settled_for_good :
    (s : PaymentStatus) (ts : List PaymentStatus) (u : PaymentStatus)
    → run require_payment_transition s ts ≡ ok u
    → is_settled s ≡ true
    → is_settled u ≡ true
settled_for_good s ts u r =
    run-closed require_payment_transition (λ v. is_settled v ≡ true) settled_step s ts u r

abbrev refund_rank : RefundStatus → ℕ
refund_rank RefundStatus.pending = 1
refund_rank _ = 0

refund_rank_step :
    (s t : RefundStatus)
    → require_refund_transition s t ≡ ok tt
    → (s is t ≡ true) ⊎ (suc (refund_rank t) ≤ refund_rank s)
unfolding require_refund_transition
refund_rank_step s t h = ground arith

-- Whatever sequence of changes is accepted, a refund's status changes at most once.
refund_settles_once :
    (s : RefundStatus) (ts : List RefundStatus) (u : RefundStatus)
    → run require_refund_transition s ts ≡ ok u
    → changes s ts ≤ 1
refund_settles_once s ts u r =
    ground (arith, run-rank require_refund_transition refund_rank refund_rank_step s ts u r)
