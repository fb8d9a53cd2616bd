-- ===== src/Enums/Booking.antt =====
-- app/domain/enums.py: appointments and reservations, each with its numbering.
use lanrouge_nails_bot.Base.{ℕ, ◌≡◌, refl, some, List, [], ◌∷◌, get_elem?}
use lanrouge_nails_bot.Enums.Members.{Enum}

pub data AppointmentStatus : Type 0 where
  pending_payment pending_manual_confirmation confirmed client_confirmed completed
        cancelled_by_client cancelled_by_admin no_show rescheduled payment_expired refund_pending
        partially_refunded refunded :
      AppointmentStatus

abbrev pub appointment_status_index : AppointmentStatus → ℕ
appointment_status_index AppointmentStatus.pending_payment = 0
appointment_status_index AppointmentStatus.pending_manual_confirmation = 1
appointment_status_index AppointmentStatus.confirmed = 2
appointment_status_index AppointmentStatus.client_confirmed = 3
appointment_status_index AppointmentStatus.completed = 4
appointment_status_index AppointmentStatus.cancelled_by_client = 5
appointment_status_index AppointmentStatus.cancelled_by_admin = 6
appointment_status_index AppointmentStatus.no_show = 7
appointment_status_index AppointmentStatus.rescheduled = 8
appointment_status_index AppointmentStatus.payment_expired = 9
appointment_status_index AppointmentStatus.refund_pending = 10
appointment_status_index AppointmentStatus.partially_refunded = 11
appointment_status_index AppointmentStatus.refunded = 12

abbrev pub appointment_status_members : List AppointmentStatus
appointment_status_members =
    AppointmentStatus.pending_payment ∷ AppointmentStatus.pending_manual_confirmation
    ∷ AppointmentStatus.confirmed ∷ AppointmentStatus.client_confirmed ∷ AppointmentStatus.completed
    ∷ AppointmentStatus.cancelled_by_client ∷ AppointmentStatus.cancelled_by_admin
    ∷ AppointmentStatus.no_show ∷ AppointmentStatus.rescheduled ∷ AppointmentStatus.payment_expired
    ∷ AppointmentStatus.refund_pending ∷ AppointmentStatus.partially_refunded
    ∷ AppointmentStatus.refunded ∷ []

pub appointment_status_index_sound :
    (a : AppointmentStatus)
    → get_elem? appointment_status_members (appointment_status_index a) ≡ some a
appointment_status_index_sound AppointmentStatus.pending_payment = refl
appointment_status_index_sound AppointmentStatus.pending_manual_confirmation = refl
appointment_status_index_sound AppointmentStatus.confirmed = refl
appointment_status_index_sound AppointmentStatus.client_confirmed = refl
appointment_status_index_sound AppointmentStatus.completed = refl
appointment_status_index_sound AppointmentStatus.cancelled_by_client = refl
appointment_status_index_sound AppointmentStatus.cancelled_by_admin = refl
appointment_status_index_sound AppointmentStatus.no_show = refl
appointment_status_index_sound AppointmentStatus.rescheduled = refl
appointment_status_index_sound AppointmentStatus.payment_expired = refl
appointment_status_index_sound AppointmentStatus.refund_pending = refl
appointment_status_index_sound AppointmentStatus.partially_refunded = refl
appointment_status_index_sound AppointmentStatus.refunded = refl

instance abbrev pub appointment_status_enum : Enum AppointmentStatus
appointment_status_enum = record {
  index = appointment_status_index;
  members = appointment_status_members;
  index_sound = appointment_status_index_sound;
}

pub data ReservationStatus : Type 0 where
  active awaiting_review consumed expired cancelled : ReservationStatus

abbrev pub reservation_status_index : ReservationStatus → ℕ
reservation_status_index ReservationStatus.active = 0
reservation_status_index ReservationStatus.awaiting_review = 1
reservation_status_index ReservationStatus.consumed = 2
reservation_status_index ReservationStatus.expired = 3
reservation_status_index ReservationStatus.cancelled = 4

abbrev pub reservation_status_members : List ReservationStatus
reservation_status_members =
    ReservationStatus.active ∷ ReservationStatus.awaiting_review ∷ ReservationStatus.consumed
    ∷ ReservationStatus.expired ∷ ReservationStatus.cancelled ∷ []

pub reservation_status_index_sound :
    (a : ReservationStatus)
    → get_elem? reservation_status_members (reservation_status_index a) ≡ some a
reservation_status_index_sound ReservationStatus.active = refl
reservation_status_index_sound ReservationStatus.awaiting_review = refl
reservation_status_index_sound ReservationStatus.consumed = refl
reservation_status_index_sound ReservationStatus.expired = refl
reservation_status_index_sound ReservationStatus.cancelled = refl

instance abbrev pub reservation_status_enum : Enum ReservationStatus
reservation_status_enum = record {
  index = reservation_status_index;
  members = reservation_status_members;
  index_sound = reservation_status_index_sound;
}
