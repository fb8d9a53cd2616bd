-- ===== src/Reservations/Overdue.antt =====
-- One cycle of the worker: its counts, the windows of the business, and the holds that ran out.
use lanrouge_nails_bot.Base.{
  All-sorted, All-take, AllPairs-select, AllPairs-sorted, AllPairs-take, All-select_test, sorted,
  length, take, subst, select, All-map, find, find-change_other, AllPairs, All, List, ℕ, ◌≡◌, refl,
  true, false, some, ◌==◌, arith, ◌∷◌, [],
}
use lanrouge_nails_bot.Enums.{appointment_status_enum, reservation_status_enum}
use lanrouge_nails_bot.Errors.{ok-injective, >>=-eq-ok, ok}
use lanrouge_nails_bot.Time.{require_aware, Datetime, aware}
use lanrouge_nails_bot.Payments.Records.{final, Outcome, done, raised}
use lanrouge_nails_bot.Reservations.Store.{
  expires_before, is_expired, claim_expired, is_reservation, BookingReservation, Store, get,
}
use lanrouge_nails_bot.Reservations.Cycle.{expire_claimed-IsClosed, IsClosed}
use lanrouge_nails_bot.Reservations.Worker.{
  run_cycle, expire_each, ReservationExpiryResult, after_savepoint,
}
use lanrouge_nails_bot.Reservations.Exclusive.{IsExclusive}
use lanrouge_nails_bot.Reservations.Expire.{expire_claimed}
use lanrouge_nails_bot.Reservations.Expiry.{expire_claimed-IsExclusive}
use lanrouge_nails_bot.Reservations.Rules.{ReservationExpiryAction}

-- The rows have a primary key.
abbrev pub HaveKeys : List BookingReservation → Type 0
HaveKeys = AllPairs (λ r q. q.id == r.id ≡ false)

-- What holds before a claimed hold, and wherever it is finished, holds after its savepoint.
savepoint-kept :
    (P : Store → Type 0) (s : Store) (o : Outcome Store ReservationExpiryAction)
    (counts : ReservationExpiryResult)
    → P s
    → ((s' : Store) (action : ReservationExpiryAction) → o ≡ done s' action → P s')
    → P (after_savepoint s o counts).0
unfolding after_savepoint
savepoint-kept P s (raised _ e) counts before after = before
savepoint-kept P s (done s' ReservationExpiryAction.expired) counts before after = after s' _ refl
savepoint-kept P s (done s' ReservationExpiryAction.reconciled) counts before after =
    after s' _ refl

All-both :
    {A : Type 0} (P Q : A → Type 0) (xs : List A) → All P xs → All Q xs → All (λ x. P x × Q x) xs
All-both P Q [] hp hq = tt
All-both P Q (x ∷ xs) hp hq = ((hp.0, hq.0), All-both P Q xs hp.1 hq.1)

is_expired-own :
    (business_id current : ℕ) (r : BookingReservation)
    → is_expired business_id current r ≡ true
    → r.business_id == business_id ≡ true
unfolding is_expired
is_expired-own business_id current r h = ground arith

module _ (business_id : ℕ) where
  -- The claimed rows that are left are those of the store.
  abbrev AreClaimed : Store → List BookingReservation → Type 0
  AreClaimed s claimed = HaveKeys claimed × All (λ q. get business_id s q.id ≡ some q) claimed

  still_claimed :
      (s s' : Store) (r : BookingReservation) (claimed : List BookingReservation)
      → IsClosed s r.id s'
      → All (λ q. q.id == r.id ≡ false) claimed
      → All (λ q. get business_id s q.id ≡ some q) claimed
      → All (λ q. get business_id s' q.id ≡ some q) claimed
  unfolding IsClosed get
  still_claimed s s' r [] closed others found = tt
  still_claimed s s' r (q ∷ claimed) (f, keeps, same) others found = (
    rw same (
        find-change_other (is_reservation business_id q.id) (λ row. row.id == r.id) f s.reservations
          (λ row. ground (arith, keeps row)) found.0 others.0),
    still_claimed s s' r claimed (f, keeps, same) others.1 found.1,
  )

  expire_each-IsExclusive :
      (s : Store) (claimed : List BookingReservation) (current : ℕ)
      (counts : ReservationExpiryResult)
      → AreClaimed s claimed
      → IsExclusive business_id s
      → IsExclusive business_id (expire_each business_id s claimed current counts).0
  unfolding expire_each
  expire_each-IsExclusive s [] current counts claims h = h
  expire_each-IsExclusive s (r ∷ claimed) current counts ((others, keys), (found, rest)) h =
      let o = expire_claimed business_id s r (aware current) in
      let after = expire_claimed-IsExclusive business_id s r (aware current) found h in
      let s' = (after_savepoint s o counts).0 in
      let claims : All (λ q. get business_id s' q.id ≡ some q) claimed =
        savepoint-kept (λ t. All (λ q. get business_id t q.id ≡ some q) claimed) s o counts rest
          λ t _ finished.
            still_claimed s t r claimed
              (expire_claimed-IsClosed business_id s r (aware current) finished) others rest in
      let kept : IsExclusive business_id s' =
        savepoint-kept (IsExclusive business_id) s o counts h
          λ t _ finished. subst (λ x. IsExclusive business_id (final x)) finished after in
      expire_each-IsExclusive s' claimed current (after_savepoint s o counts).1 (keys, claims) kept

  -- Each row of the business is the one that its identifier finds.
  keys-found :
      (rows : List BookingReservation)
      → HaveKeys rows
      → All
          (λ r.
            r.business_id == business_id ≡ true
            → find (is_reservation business_id r.id) rows ≡ some r)
          rows
  keys-found [] keys = tt
  keys-found (r ∷ rows) (others, keys) = (
    (λ own. ground arith),
    All-map (λ q (differs, found) own. ground (arith, found own)) rows
        (All-both (λ q. q.id == r.id ≡ false) _ rows others (keys-found rows keys)),
  )

  claimed-AreClaimed :
      (s : Store) (current limit : ℕ) {claimed : List BookingReservation}
      → HaveKeys s.reservations
      → claim_expired business_id s current limit ≡ ok claimed
      → AreClaimed s claimed
  unfolding claim_expired get
  claimed-AreClaimed s current limit {claimed} keys h =
      let overdue = select (is_expired business_id current) s.reservations in
      let it : take limit (sorted expires_before overdue) ≡ claimed = ground arith in
      let mine =
        All-map (λ r (found, chosen). found (is_expired-own business_id current r chosen)) overdue
          (All-select_test _ (is_expired business_id current) s.reservations
            (keys-found s.reservations keys)) in
      subst (AreClaimed s) it (
        AllPairs-take _ limit (sorted expires_before overdue) (
            AllPairs-sorted expires_before _ (λ r q differs. ground arith) overdue
              (AllPairs-select _ (is_expired business_id current) s.reservations keys)),
        All-take _ limit (sorted expires_before overdue) (All-sorted expires_before _ overdue mine),
      )

  -- One cycle of the worker, whatever it claims and however each hold ends, keeps the windows of the
  -- business exclusive: none is held twice, and an open one is not held.
  pub run_cycle-IsExclusive :
      (s : Store) (now : Datetime) (limit : ℕ) {s' : Store} {counts : ReservationExpiryResult}
      → HaveKeys s.reservations
      → IsExclusive business_id s
      → run_cycle business_id s now limit ≡ ok (s', counts)
      → IsExclusive business_id s'
  unfolding run_cycle
  run_cycle-IsExclusive s now limit keys h ran =
      let (current, _, ran1) = >>=-eq-ok (require_aware now) _ ran in
      let (claimed, claims, ran2) = >>=-eq-ok (claim_expired business_id s current limit) _ ran1 in
      let kept =
        expire_each-IsExclusive s claimed current
          (record { checked = length claimed; expired = 0; reconciled_paid = 0; errors = 0 })
          (claimed-AreClaimed s current limit keys claims) h in
      subst (λ x. IsExclusive business_id x.0) (ok-injective ran2) kept
