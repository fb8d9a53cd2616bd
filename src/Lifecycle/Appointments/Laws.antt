-- ===== src/Lifecycle/Appointments/Laws.antt =====
-- What every sequence of accepted changes of an appointment's status does.
use lanrouge_nails_bot.Base.{◌≡◌, Bool, true, false, List, ◌⊎◌, arith}
use lanrouge_nails_bot.Enums.{AppointmentStatus, appointment_status_enum, contains}
use lanrouge_nails_bot.Errors.{ok}
use lanrouge_nails_bot.Lifecycle.Runs.{run, run-closed, run-gate}
use lanrouge_nails_bot.Lifecycle.Appointments.{ensure_appointment_transition, occupies_schedule}

released_step :
    (s t : AppointmentStatus)
    → ensure_appointment_transition s t ≡ ok tt
    → occupies_schedule s ≡ false
    → occupies_schedule t ≡ false
unfolding ensure_appointment_transition occupies_schedule
released_step s t h free = ground arith

-- An appointment that does not occupy the schedule never occupies it again, whatever accepted
-- changes follow.
pub released_for_good :
    (s : AppointmentStatus) (ts : List AppointmentStatus) (u : AppointmentStatus)
    → run ensure_appointment_transition s ts ≡ ok u
    → occupies_schedule s ≡ false
    → occupies_schedule u ≡ false
released_for_good s ts u r =
    run-closed ensure_appointment_transition (λ v. occupies_schedule v ≡ false) released_step s ts u
      r

-- The three statuses that follow a request to return the client's money.
abbrev pub is_refund_status : AppointmentStatus → Bool
is_refund_status AppointmentStatus.refund_pending = true
is_refund_status AppointmentStatus.partially_refunded = true
is_refund_status AppointmentStatus.refunded = true
is_refund_status _ = false

refund_gate :
    (s t : AppointmentStatus)
    → ensure_appointment_transition s t ≡ ok tt
    → is_refund_status s ≡ false
    → (t ≡ AppointmentStatus.refund_pending) ⊎ (is_refund_status t ≡ false)
unfolding ensure_appointment_transition
refund_gate s t h out = ground arith

-- An appointment outside the refund statuses gets into one of them only by a run of accepted
-- changes that has a change to `refund_pending`.
refund_needs_request :
    (s : AppointmentStatus) (ts : List AppointmentStatus) (u : AppointmentStatus)
    → run ensure_appointment_transition s ts ≡ ok u
    → is_refund_status s ≡ false
    → is_refund_status u ≡ true
    → contains AppointmentStatus.refund_pending ts ≡ true
refund_needs_request =
    run-gate ensure_appointment_transition is_refund_status AppointmentStatus.refund_pending
      refund_gate
