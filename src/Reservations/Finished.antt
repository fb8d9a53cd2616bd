-- ===== src/Reservations/Finished.antt =====
-- One cycle of the worker: its counts, and that no hold that ran out is left where nothing failed
-- and the limit was not reached.
use lanrouge_nails_bot.Base.{
  zero, ◌&&◌, length-take, leb, any-sorted, take-short, All-map, ◌∙◌, suc, ℕ, ◌≡◌, refl, true,
  false, ◌==◌, ◌+◌, ◌<◌, ◌≤◌, inl, inr, Bool-cases, arith, ◌∷◌, [], List, length, All, any, select,
  take, sorted, sym, subst, ap, change,
}
use lanrouge_nails_bot.Enums.{ReservationStatus, reservation_status_enum, ◌is◌}
use lanrouge_nails_bot.Errors.{ok-injective, >>=-eq-ok, ok}
use lanrouge_nails_bot.Time.{require_aware, Datetime, aware}
use lanrouge_nails_bot.Payments.Records.{Outcome, done, raised}
use lanrouge_nails_bot.Reservations.Store.{
  expires_before, claim_expired, is_expired, Store, BookingReservation,
}
use lanrouge_nails_bot.Reservations.Rules.{ReservationExpiryAction}
use lanrouge_nails_bot.Reservations.Worker.{
  run_cycle, expire_each, after_savepoint, ReservationExpiryResult,
}
use lanrouge_nails_bot.Reservations.Cycle.{expire_claimed-IsClosed, IsClosed}
use lanrouge_nails_bot.Reservations.Expire.{expire_claimed}

-- The holds that a cycle finished or failed on.
abbrev total : ReservationExpiryResult → ℕ
total counts = counts.expired + counts.reconciled_paid + counts.errors

after_savepoint-counts :
    (s : Store) (o : Outcome Store ReservationExpiryAction) (counts : ReservationExpiryResult)
    → let counts' = (after_savepoint s o counts).1 in
      (counts'.checked ≡ counts.checked)
      × (total counts' ≡ suc (total counts))
      × (counts.errors ≤ counts'.errors)
unfolding after_savepoint
after_savepoint-counts s (raised _ e) counts = (refl, omega arith, omega arith)
after_savepoint-counts s (done s' ReservationExpiryAction.expired) counts =
    (refl, omega arith, omega arith)
after_savepoint-counts s (done s' ReservationExpiryAction.reconciled) counts =
    (refl, omega arith, omega arith)

-- A savepoint that counted no error was left by a call that returned.
after_savepoint-done :
    (s : Store) (o : Outcome Store ReservationExpiryAction) (counts : ReservationExpiryResult)
    → (after_savepoint s o counts).1.errors ≡ 0
    → (action : ReservationExpiryAction) × (o ≡ done (after_savepoint s o counts).0 action)
unfolding after_savepoint
after_savepoint-done s (raised _ e) counts h = ground arith
after_savepoint-done s (done s' ReservationExpiryAction.expired) counts h = (_, refl)
after_savepoint-done s (done s' ReservationExpiryAction.reconciled) counts h = (_, refl)

take_none : (n : ℕ) → take {A = BookingReservation} n [] ≡ []
take_none zero = refl
take_none (suc n) = refl

module _ (business_id : ℕ) where
  expire_each-counts :
      (s : Store) (claimed : List BookingReservation) (current : ℕ)
      (counts : ReservationExpiryResult)
      → let counts' = (expire_each business_id s claimed current counts).1 in
        (counts'.checked ≡ counts.checked)
        × (total counts' ≡ total counts + length claimed)
        × (counts.errors ≤ counts'.errors)
  unfolding expire_each
  expire_each-counts s [] current counts = (refl, omega arith, omega arith)
  expire_each-counts s (r ∷ claimed) current counts =
      let o = expire_claimed business_id s r (aware current) in
      let (s', counts') = after_savepoint s o counts in
      let (checked, one, fewer) = after_savepoint-counts s o counts in
      let (checked', rest, fewer') = expire_each-counts s' claimed current counts' in
      (checked' ∙ checked, omega (arith, one, rest), omega (arith, fewer, fewer'))

  -- Every hold that ran out is among those that were claimed and not finished yet.
  abbrev AreLeft : ℕ → List BookingReservation → List BookingReservation → Type 0
  AreLeft current claimed =
      All (λ row.
        is_expired business_id current row ≡ true → any (λ q. q.id == row.id) claimed ≡ true)

  closed-AreLeft :
      (current : ℕ) (r : BookingReservation) (claimed : List BookingReservation)
      (f : BookingReservation → BookingReservation)
      → ((row : BookingReservation) → (f row).status is ReservationStatus.active ≡ false)
      → (rows : List BookingReservation) → AreLeft current (r ∷ claimed) rows
      → AreLeft current claimed (change (λ row. row.id == r.id) f rows)
  unfolding is_expired
  closed-AreLeft current r claimed f closes [] left = tt
  closed-AreLeft current r claimed f closes (row ∷ rows) (here, left) =
      elim (Bool-cases (row.id == r.id)) [
        | inl chosen ↦ rw chosen (
          (λ overdue. ground (arith, closes row)),
          closed-AreLeft current r claimed f closes rows left,
        )
        | inr other ↦ rw other (
          (λ overdue. ground (arith, here overdue)),
          closed-AreLeft current r claimed f closes rows left,
        )
      ]

  expire_each-AreLeft :
      (s : Store) (claimed : List BookingReservation) (current : ℕ)
      (counts : ReservationExpiryResult)
      → (expire_each business_id s claimed current counts).1.errors ≡ 0
      → AreLeft current claimed s.reservations
      → AreLeft current [] (expire_each business_id s claimed current counts).0.reservations
  unfolding expire_each IsClosed
  expire_each-AreLeft s [] current counts clean left = left
  expire_each-AreLeft s (r ∷ claimed) current counts clean left =
      let o = expire_claimed business_id s r (aware current) in
      let s' = (after_savepoint s o counts).0 in
      let counts' = (after_savepoint s o counts).1 in
      let (_, _, fewer) = expire_each-counts s' claimed current counts' in
      let finished = after_savepoint-done s o counts (omega (arith, fewer, clean)) in
      let (f, keeps, same) = expire_claimed-IsClosed business_id s r (aware current) finished.1 in
      expire_each-AreLeft s' claimed current counts' clean (
        subst (AreLeft current claimed) (sym same)
          (closed-AreLeft current r claimed f (λ row. (keeps row).2) s.reservations left))

  select-AreLeft :
      (current : ℕ) (rows : List BookingReservation)
      → AreLeft current (select (is_expired business_id current) rows) rows
  select-AreLeft current [] = tt
  select-AreLeft current (r ∷ rows) =
      let p = is_expired business_id current in
      elim (Bool-cases (p r)) [
        | inl overdue ↦
            let here : r ∷ select p rows ≡ select p (r ∷ rows) = rw overdue refl in
            subst (λ claimed. AreLeft current claimed (r ∷ rows)) here
              (
                (λ _. ground arith),
                All-map (λ row left chosen. ground (arith, left chosen)) rows
                    (select-AreLeft current rows),
              )
        | inr not_yet ↦
            let here : select p rows ≡ select p (r ∷ rows) = rw not_yet refl in
            subst (λ claimed. AreLeft current claimed (r ∷ rows)) here
              ((λ overdue. ground arith), select-AreLeft current rows)
      ]

  none_left :
      (current : ℕ) (rows : List BookingReservation)
      → AreLeft current [] rows
      → select (is_expired business_id current) rows ≡ []
  none_left current [] left = refl
  none_left current (r ∷ rows) left = elim (Bool-cases (is_expired business_id current r)) [
    | inl overdue ↦ ground (arith, left.0 overdue)
    | inr not_yet ↦ rw not_yet (none_left current rows left.1)
  ]

  claimed-AreLeft :
      (s : Store) (current limit : ℕ) {claimed : List BookingReservation}
      → claim_expired business_id s current limit ≡ ok claimed
      → length claimed < limit
      → AreLeft current claimed s.reservations
  unfolding claim_expired
  claimed-AreLeft s current limit {claimed} claims short =
      let overdue = select (is_expired business_id current) s.reservations in
      let it : take limit (sorted expires_before overdue) ≡ claimed = ground arith in
      let all : take limit (sorted expires_before overdue) ≡ sorted expires_before overdue =
        take-short limit (sorted expires_before overdue)
          (subst (λ x. length x < limit) (sym it) short) in
      subst (λ x. AreLeft current x s.reservations) (sym all ∙ it)
        (All-map
          (λ row left chosen. any-sorted expires_before (λ q. q.id == row.id) overdue ∙ left chosen)
          s.reservations (select-AreLeft current s.reservations))

  claim_expired-none :
      (s s' : Store) (current limit : ℕ) {claimed : List BookingReservation}
      → claim_expired business_id s current limit ≡ ok claimed
      → AreLeft current [] s'.reservations
      → claim_expired business_id s' current limit ≡ ok []
  unfolding claim_expired
  claim_expired-none s s' current limit claims left =
      let none = none_left current s'.reservations left in
      let in_range : leb 1 limit && leb limit 1000 ≡ true = ground arith in
      rw (in_range, none) (ap ok (take_none limit))

  claimed-length :
      (s : Store) (current limit : ℕ) {claimed : List BookingReservation}
      → claim_expired business_id s current limit ≡ ok claimed
      → length claimed ≤ limit
  unfolding claim_expired
  claimed-length s current limit {claimed} claims =
      let overdue = select (is_expired business_id current) s.reservations in
      let it : take limit (sorted expires_before overdue) ≡ claimed = ground arith in
      subst (λ x. length x ≤ limit) it (length-take limit (sorted expires_before overdue))

  -- The counts before the first hold.
  abbrev start : ℕ → ReservationExpiryResult
  start checked = record { checked = checked; expired = 0; reconciled_paid = 0; errors = 0 }

  -- A cycle counts each hold that it claimed once, as expired, reconciled or failed, and claims no
  -- more than its limit.
  pub run_cycle-counts :
      (s : Store) (now : Datetime) (limit : ℕ) {s' : Store} {counts : ReservationExpiryResult}
      → run_cycle business_id s now limit ≡ ok (s', counts)
      → (counts.expired + counts.reconciled_paid + counts.errors ≡ counts.checked)
        × (counts.checked ≤ limit)
  unfolding run_cycle
  run_cycle-counts s now limit {s'} {counts} ran =
      let (current, _, ran1) = >>=-eq-ok (require_aware now) _ ran in
      let (claimed, claims, ran2) = >>=-eq-ok (claim_expired business_id s current limit) _ ran1 in
      let (checked, each, _) = expire_each-counts s claimed current (start (length claimed)) in
      let short = claimed-length s current limit claims in
      subst
        (λ (x : Store × ReservationExpiryResult). (total x.1 ≡ x.1.checked) × (x.1.checked ≤ limit))
        (ok-injective ran2) (omega (arith, each, checked), omega (arith, short, checked))

  -- After a cycle without errors that claimed fewer holds than its limit, nothing is left to claim at
  -- the same time.
  pub run_cycle-claim_expired :
      (s : Store) (current limit : ℕ) {s' : Store} {counts : ReservationExpiryResult}
      → run_cycle business_id s (aware current) limit ≡ ok (s', counts)
      → counts.errors ≡ 0
      → counts.checked < limit
      → claim_expired business_id s' current limit ≡ ok []
  unfolding run_cycle
  run_cycle-claim_expired s current limit {s'} {counts} ran clean short =
      let (claimed, claims, ran1) = >>=-eq-ok (claim_expired business_id s current limit) _ ran in
      let each = expire_each business_id s claimed current (start (length claimed)) in
      let same : each ≡ (s', counts) = ok-injective ran1 in
      let (checked, _, _) = expire_each-counts s claimed current (start (length claimed)) in
      let clean' : each.1.errors ≡ 0 =
        ap (λ (x : Store × ReservationExpiryResult). x.1.errors) same ∙ clean in
      let checked' : each.1.checked ≡ counts.checked =
        ap (λ (x : Store × ReservationExpiryResult). x.1.checked) same in
      let left =
        expire_each-AreLeft s claimed current (start (length claimed)) clean'
          (claimed-AreLeft s current limit claims (omega (arith, checked, checked', short))) in
      claim_expired-none s s' current limit claims (
        subst (λ (x : Store × ReservationExpiryResult). AreLeft current [] x.0.reservations) same
          left)
