-- ===== src/Lifecycle/Appointments.antt =====
-- app/domain/appointments.py: the appointment lifecycle and the deadlines of a client's changes.
use lanrouge_nails_bot.Base.{ℕ, ◌+◌, Bool, not, List, [], ◌∷◌, ltb, if◌then◌else◌}
use lanrouge_nails_bot.Enums.{AppointmentStatus, appointment_status_enum, ◌is◌, contains}
use lanrouge_nails_bot.Errors.{
  Result, ok, err, value_error, appointment_state, cancellation_deadline, raise_if,
}
use lanrouge_nails_bot.Time.{Datetime, naive, aware, hours}
pub mod Laws

abbrev pub active_appointment_statuses : List AppointmentStatus
active_appointment_statuses = AppointmentStatus.confirmed ∷ AppointmentStatus.client_confirmed ∷ []

abbrev pub schedule_occupying_statuses : List AppointmentStatus
schedule_occupying_statuses =
    AppointmentStatus.pending_payment ∷ AppointmentStatus.pending_manual_confirmation
    ∷ AppointmentStatus.confirmed ∷ AppointmentStatus.client_confirmed ∷ []

abbrev pub allowed_appointment_transitions : AppointmentStatus → List AppointmentStatus
allowed_appointment_transitions AppointmentStatus.pending_payment =
    AppointmentStatus.pending_manual_confirmation ∷ AppointmentStatus.confirmed
    ∷ AppointmentStatus.payment_expired ∷ AppointmentStatus.cancelled_by_client
    ∷ AppointmentStatus.cancelled_by_admin ∷ []
allowed_appointment_transitions AppointmentStatus.pending_manual_confirmation =
    AppointmentStatus.confirmed ∷ AppointmentStatus.payment_expired
    ∷ AppointmentStatus.cancelled_by_client ∷ AppointmentStatus.cancelled_by_admin ∷ []
allowed_appointment_transitions AppointmentStatus.confirmed =
    AppointmentStatus.client_confirmed ∷ AppointmentStatus.completed
    ∷ AppointmentStatus.cancelled_by_client ∷ AppointmentStatus.cancelled_by_admin
    ∷ AppointmentStatus.no_show ∷ AppointmentStatus.rescheduled ∷ AppointmentStatus.refund_pending
    ∷ []
allowed_appointment_transitions AppointmentStatus.client_confirmed =
    AppointmentStatus.completed ∷ AppointmentStatus.cancelled_by_client
    ∷ AppointmentStatus.cancelled_by_admin ∷ AppointmentStatus.no_show
    ∷ AppointmentStatus.rescheduled ∷ AppointmentStatus.refund_pending ∷ []
allowed_appointment_transitions AppointmentStatus.completed = AppointmentStatus.refund_pending ∷ []
allowed_appointment_transitions AppointmentStatus.cancelled_by_client =
    AppointmentStatus.refund_pending ∷ []
allowed_appointment_transitions AppointmentStatus.cancelled_by_admin =
    AppointmentStatus.refund_pending ∷ []
allowed_appointment_transitions AppointmentStatus.no_show = AppointmentStatus.refund_pending ∷ []
allowed_appointment_transitions AppointmentStatus.rescheduled =
    AppointmentStatus.refund_pending ∷ []
allowed_appointment_transitions AppointmentStatus.payment_expired = []
allowed_appointment_transitions AppointmentStatus.refund_pending =
    AppointmentStatus.partially_refunded ∷ AppointmentStatus.refunded ∷ []
allowed_appointment_transitions AppointmentStatus.partially_refunded =
    AppointmentStatus.refund_pending ∷ AppointmentStatus.refunded ∷ []
allowed_appointment_transitions AppointmentStatus.refunded = []

unfoldable pub ensure_appointment_transition : AppointmentStatus → AppointmentStatus → Result Unit
ensure_appointment_transition current target =
    if current is target
    then ok tt
    else raise_if (not (contains target (allowed_appointment_transitions current)))
        appointment_state

unfoldable pub occupies_schedule : AppointmentStatus → Bool
occupies_schedule status = contains status schedule_occupying_statuses

unfoldable pub ensure_active_appointment : AppointmentStatus → Result Unit
ensure_active_appointment status =
    raise_if (not (contains status active_appointment_statuses)) appointment_state

-- `start_at - now < timedelta(hours=deadline_hours)`, with `now` moved to the other side.
unfoldable pub ensure_client_change_deadline : Datetime → Datetime → ℕ → Result Unit
ensure_client_change_deadline (aware start_at) (aware now) deadline_hours =
    raise_if (ltb start_at (now + hours deadline_hours)) cancellation_deadline
ensure_client_change_deadline _ _ _ = err value_error

unfoldable pub ensure_client_reschedule_deadline : Datetime → Datetime → ℕ → Result Unit
ensure_client_reschedule_deadline (aware start_at) (aware now) deadline_hours =
    raise_if (ltb start_at (now + hours deadline_hours)) cancellation_deadline
ensure_client_reschedule_deadline _ _ _ = err value_error
