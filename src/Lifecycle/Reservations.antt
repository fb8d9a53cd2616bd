-- ===== src/Lifecycle/Reservations.antt =====
-- app/domain/reservations.py: the lifecycle of a short hold on a window.
use lanrouge_nails_bot.Base.{not, List, [], ◌∷◌, if◌then◌else◌}
use lanrouge_nails_bot.Enums.{ReservationStatus, reservation_status_enum, ◌is◌, contains}
use lanrouge_nails_bot.Errors.{Result, ok, reservation_state, raise_if}
pub mod Laws

abbrev pub reservation_transitions : ReservationStatus → List ReservationStatus
reservation_transitions ReservationStatus.active =
    ReservationStatus.awaiting_review ∷ ReservationStatus.consumed ∷ ReservationStatus.expired
    ∷ ReservationStatus.cancelled ∷ []
reservation_transitions ReservationStatus.awaiting_review =
    ReservationStatus.consumed ∷ ReservationStatus.cancelled ∷ []
reservation_transitions ReservationStatus.consumed = []
reservation_transitions ReservationStatus.expired = []
reservation_transitions ReservationStatus.cancelled = []

unfoldable pub ensure_reservation_transition : ReservationStatus → ReservationStatus → Result Unit
ensure_reservation_transition current target =
    if current is target
    then ok tt
    else raise_if (not (contains target (reservation_transitions current))) reservation_state
