-- ===== src/Reservations/Exclusive.antt =====
-- What keeps a window of one business from being held twice: the state of the windows and holds,
-- and how the changes that the service makes of them move it.
use lanrouge_nails_bot.Base.{
  ℕ, suc, ◌≤◌, ◌≡◌, ap, ◌∙◌, inl, inr, Bool-cases, Bool, true, false, List, [], ◌∷◌, none, some,
  All, All-map, ◌==◌, change, count, find-test, find-none-count, All-change, count-change_le,
  count-change_lt, arith, ==→eq,
}
use lanrouge_nails_bot.Enums.{
  AvailabilityWindowStatus, availability_window_status_enum, reservation_status_enum, ◌is◌,
  contains,
}
use lanrouge_nails_bot.Reservations.Store.{
  AvailabilityWindow, BookingReservation, Store, is_held, get, is_reservation,
  get_active_for_window, set_window, holding_statuses,
}

module _ (business_id : ℕ) where
  -- The holds of a window that are active or await review.
  abbrev pub holds : ℕ → List BookingReservation → ℕ
  holds window_id = count (is_held business_id window_id)

  abbrev pub IsFree : List BookingReservation → AvailabilityWindow → Type 0
  IsFree rows w =
      w.business_id == business_id ≡ true
      → w.status is AvailabilityWindowStatus.open_ ≡ true
      → holds w.id rows ≡ 0

  -- No window is held twice, and an open one is not held.
  unfoldable pub AreExclusive : List BookingReservation → List AvailabilityWindow → Type 0
  AreExclusive rows ws = ((window_id : ℕ) → holds window_id rows ≤ 1) × All (IsFree rows) ws

  abbrev pub IsExclusive : Store → Type 0
  IsExclusive s = AreExclusive s.reservations s.windows

  -- A row that changed to a status that holds nothing, and the rest of it.
  abbrev pub Closes : (BookingReservation → BookingReservation) → Type 0
  Closes f = (r : BookingReservation) → contains (f r).status holding_statuses ≡ false

  pub Closes-holds :
      (f : BookingReservation → BookingReservation) (p : BookingReservation → Bool)
      (rows : List BookingReservation)
      → Closes f
      → (window_id : ℕ) → holds window_id (change p f rows) ≤ holds window_id rows
  unfolding is_held
  Closes-holds f p rows closes window_id =
      count-change_le p f (is_held business_id window_id) (λ r _. ground (arith, closes r)) rows

  pub Closes-last :
      (f : BookingReservation → BookingReservation) (s : Store) (r : BookingReservation)
      → Closes f
      → get business_id s r.id ≡ some r
      → contains r.status holding_statuses ≡ true
      → suc (holds r.window_id (change (λ row. row.id == r.id) f s.reservations))
        ≤ holds r.window_id s.reservations
  unfolding get is_held
  Closes-last f s r closes found live =
      let selected = find-test (is_reservation business_id r.id) s.reservations found in
      count-change_lt (λ row. row.id == r.id) f (is_held business_id r.window_id)
        (λ row _. ground (arith, closes row)) (is_reservation business_id r.id) s.reservations found
        (ground arith) (ground arith)

  -- Fewer holds leave an open window free.
  pub IsFree-less :
      (rows rows' : List BookingReservation) (ws : List AvailabilityWindow)
      → ((window_id : ℕ) → holds window_id rows' ≤ holds window_id rows)
      → All (IsFree rows) ws
      → All (IsFree rows') ws
  IsFree-less rows rows' ws less =
      All-map (λ w free own opened. ground (arith, less w.id, free own opened)) ws

  -- The windows after one got a status that is not open.
  pub IsFree-taken :
      (rows : List BookingReservation) (ws : List AvailabilityWindow) (window_id : ℕ)
      (status : AvailabilityWindowStatus)
      → status is AvailabilityWindowStatus.open_ ≡ false
      → All (IsFree rows) ws
      → All (IsFree rows) (change (λ w. w.id == window_id) (λ w. record w { status = status }) ws)
  IsFree-taken rows ws window_id status taken =
      All-change (IsFree rows) (λ w. w.id == window_id) (λ w. record w { status = status }) ws
        λ w _ _ _ opened. ground arith

  -- The windows after one that nothing holds was opened.
  pub IsFree-opened :
      (rows : List BookingReservation) (ws : List AvailabilityWindow) (window_id : ℕ)
      → holds window_id rows ≡ 0
      → All (IsFree rows) ws
      → All (IsFree rows) (
          change
            (λ w. w.id == window_id)
            (λ w. record w { status = AvailabilityWindowStatus.open_ })
            ws)
  IsFree-opened rows ws window_id none_held =
      All-change (IsFree rows) (λ w. w.id == window_id)
        (λ w. record w { status = AvailabilityWindowStatus.open_ }) ws
        λ w same _ _ _. ap (λ i. holds i rows) (==→eq w.id window_id same) ∙ none_held

  other_window :
      (rows : List BookingReservation) (r : BookingReservation) (window_id : ℕ)
      → window_id == r.window_id ≡ false
      → holds window_id (r ∷ rows) ≡ holds window_id rows
  unfolding is_held
  other_window rows r window_id elsewhere = ground arith

  -- The windows after a new hold of one that is not open any more.
  pub IsFree-held :
      (rows : List BookingReservation) (ws : List AvailabilityWindow) (r : BookingReservation)
      → All (IsFree rows) ws
      → All (IsFree (r ∷ rows)) (
          change
            (λ w. w.id == r.window_id)
            (λ w. record w { status = AvailabilityWindowStatus.reserved })
            ws)
  IsFree-held rows [] r free = tt
  IsFree-held rows (w ∷ ws) r free = elim (Bool-cases (w.id == r.window_id)) [
    | inl here ↦ rw here (λ _ opened. ground arith, IsFree-held rows ws r free.1)
    | inr elsewhere ↦ rw elsewhere (
      (λ own opened. other_window rows r w.id elsewhere ∙ free.0 own opened),
      IsFree-held rows ws r free.1,
    )
  ]

  holds-place :
      (rows : List BookingReservation) (r : BookingReservation)
      → holds r.window_id rows ≡ 0
      → ((window_id : ℕ) → holds window_id rows ≤ 1)
      → (window_id : ℕ) → holds window_id (r ∷ rows) ≤ 1
  holds-place rows r none_held once window_id = elim (Bool-cases (window_id == r.window_id)) [
    | inl here ↦
        let unheld = ap (λ i. holds i rows) (==→eq window_id r.window_id here) ∙ none_held in
        ground (arith, unheld)
    | inr elsewhere ↦ rw (other_window rows r window_id elsewhere) (once window_id)
  ]

  -- A hold placed on a window that nothing holds.
  pub IsExclusive-place :
      (s : Store) (r : BookingReservation)
      → get_active_for_window business_id s r.window_id ≡ none
      → IsExclusive s
      → IsExclusive (record s {
        windows =
            change
              (λ w. w.id == r.window_id)
              (λ w. record w { status = AvailabilityWindowStatus.reserved })
              s.windows;
        reservations = r ∷ s.reservations;
      })
  unfolding get_active_for_window AreExclusive
  IsExclusive-place s r unheld (once, free) =
      let none_held = find-none-count (is_held business_id r.window_id) s.reservations unheld in
      (holds-place s.reservations r none_held once, IsFree-held s.reservations s.windows r free)

  -- A hold that closed, on whatever window.
  pub IsExclusive-close :
      (s : Store) (p : BookingReservation → Bool) (f : BookingReservation → BookingReservation)
      → Closes f
      → IsExclusive s
      → IsExclusive (record s { reservations = change p f s.reservations })
  unfolding AreExclusive
  IsExclusive-close s p f closes (once, free) =
      let less = Closes-holds f p s.reservations closes in
      (
        (λ window_id. omega (arith, less window_id, once window_id)),
        IsFree-less s.reservations (change p f s.reservations) s.windows less free,
      )

  -- The hold that a window had closed, and the window opened.
  pub IsExclusive-release :
      (s : Store) (r : BookingReservation) (f : BookingReservation → BookingReservation)
      → Closes f
      → get business_id s r.id ≡ some r
      → contains r.status holding_statuses ≡ true
      → IsExclusive s
      → IsExclusive (record s {
        windows =
            change
              (λ w. w.id == r.window_id)
              (λ w. record w { status = AvailabilityWindowStatus.open_ })
              s.windows;
        reservations = change (λ row. row.id == r.id) f s.reservations;
      })
  unfolding AreExclusive
  IsExclusive-release s r f closes found live (once, free) =
      let closed = IsExclusive-close s (λ row. row.id == r.id) f closes (once, free) in
      let rows : List BookingReservation = change (λ row. row.id == r.id) f s.reservations in
      let none_held : holds r.window_id rows ≡ 0 =
        omega (arith, once r.window_id, Closes-last f s r closes found live) in
      (closed.0, IsFree-opened rows s.windows r.window_id none_held closed.1)

  -- A window that is not open any more.
  pub IsExclusive-take :
      (s : Store) (window_id : ℕ) (status : AvailabilityWindowStatus)
      → status is AvailabilityWindowStatus.open_ ≡ false
      → IsExclusive s
      → IsExclusive (set_window window_id status s)
  unfolding AreExclusive
  IsExclusive-take s window_id status taken (once, free) =
      (once, IsFree-taken s.reservations s.windows window_id status taken free)
