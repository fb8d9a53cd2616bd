-- ===== src/Lifecycle/Reservations/Laws.antt =====
-- What every sequence of accepted changes of a reservation's status does.
use lanrouge_nails_bot.Base.{ℕ, suc, ◌≤◌, ◌≡◌, true, List, ◌⊎◌, arith}
use lanrouge_nails_bot.Enums.{ReservationStatus, reservation_status_enum, ◌is◌}
use lanrouge_nails_bot.Errors.{ok}
use lanrouge_nails_bot.Lifecycle.Runs.{run, changes, run-rank}
use lanrouge_nails_bot.Lifecycle.Reservations.{ensure_reservation_transition}

-- The changes that may still come.
abbrev pub steps_left : ReservationStatus → ℕ
steps_left ReservationStatus.active = 2
steps_left ReservationStatus.awaiting_review = 1
steps_left _ = 0

steps_left_step :
    (s t : ReservationStatus)
    → ensure_reservation_transition s t ≡ ok tt
    → (s is t ≡ true) ⊎ (suc (steps_left t) ≤ steps_left s)
unfolding ensure_reservation_transition
steps_left_step s t h = ground arith

-- In every accepted sequence an active reservation changes its status at most twice, one that
-- awaits review at most once, and a consumed, expired or cancelled one never.
reservation_one_way :
    (s : ReservationStatus) (ts : List ReservationStatus) (u : ReservationStatus)
    → run ensure_reservation_transition s ts ≡ ok u
    → changes s ts ≤ steps_left s
reservation_one_way = run-rank ensure_reservation_transition steps_left steps_left_step
