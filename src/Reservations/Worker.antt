-- ===== src/Reservations/Worker.antt =====
-- app/workers/reservation_expiry.py, `ReservationExpiryWorkerCore.run_cycle`: one transaction that
-- claims the holds that ran out and finishes each in a savepoint, which an exception rolls back.
-- `SKIP LOCKED` skips nothing here: no other transaction holds a lock.
use lanrouge_nails_bot.Base.{ℕ, ◌+◌, List, [], ◌∷◌, length}
use lanrouge_nails_bot.Errors.{Result, ok, ◌>>=◌}
use lanrouge_nails_bot.Time.{Datetime, aware, require_aware}
use lanrouge_nails_bot.Payments.Records.{Outcome, done, raised}
use lanrouge_nails_bot.Reservations.Store.{Store, BookingReservation, claim_expired}
use lanrouge_nails_bot.Reservations.Rules.{ReservationExpiryAction}
use lanrouge_nails_bot.Reservations.Expire.{expire_claimed}

-- app/domain/reservations.py, `ReservationExpiryResult`
pub record ReservationExpiryResult : Type 0 where
  pub checked : ℕ
  pub expired : ℕ
  pub reconciled_paid : ℕ
  pub errors : ℕ

-- How one claimed hold ended: what is left after its savepoint, and its count.
unfoldable pub after_savepoint :
    Store
    → Outcome Store ReservationExpiryAction
    → ReservationExpiryResult
    → Store × ReservationExpiryResult
after_savepoint s (raised _ e) counts = (s, record counts { errors = counts.errors + 1 })
after_savepoint s (done s' ReservationExpiryAction.expired) counts =
    (s', record counts { expired = counts.expired + 1 })
after_savepoint s (done s' ReservationExpiryAction.reconciled) counts =
    (s', record counts { reconciled_paid = counts.reconciled_paid + 1 })

module _ (business_id : ℕ) where
  unfoldable pub expire_each :
      Store
      → List BookingReservation
      → (current : ℕ) → ReservationExpiryResult
      → Store × ReservationExpiryResult
  unfolding after_savepoint
  expire_each s [] current counts = (s, counts)
  expire_each s (r ∷ claimed) current counts =
      let (s', counts') =
        after_savepoint s (expire_claimed business_id s r (aware current)) counts in
      expire_each s' claimed current counts'

  unfoldable pub run_cycle :
      Store → (now : Datetime) → (limit : ℕ) → Result (Store × ReservationExpiryResult)
  unfolding expire_each claim_expired
  run_cycle s now limit = require_aware now >>= λ current.
      claim_expired business_id s current limit >>= λ claimed. ok (
        expire_each s claimed current
          (record { checked = length claimed; expired = 0; reconciled_paid = 0; errors = 0 }))
