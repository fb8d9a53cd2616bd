-- ===== src/Enums/Schedule.antt =====
-- app/domain/enums.py: schedules, windows and notifications, each with its numbering. `open_` is `OPEN`:
-- `open` is a reserved word.
use lanrouge_nails_bot.Base.{ℕ, ◌≡◌, refl, some, List, [], ◌∷◌, get_elem?}
use lanrouge_nails_bot.Enums.Members.{Enum}

pub data ScheduleIntervalKind : Type 0 where
  work break : ScheduleIntervalKind

abbrev pub schedule_interval_kind_index : ScheduleIntervalKind → ℕ
schedule_interval_kind_index ScheduleIntervalKind.work = 0
schedule_interval_kind_index ScheduleIntervalKind.break = 1

abbrev pub schedule_interval_kind_members : List ScheduleIntervalKind
schedule_interval_kind_members = ScheduleIntervalKind.work ∷ ScheduleIntervalKind.break ∷ []

pub schedule_interval_kind_index_sound :
    (a : ScheduleIntervalKind)
    → get_elem? schedule_interval_kind_members (schedule_interval_kind_index a) ≡ some a
schedule_interval_kind_index_sound ScheduleIntervalKind.work = refl
schedule_interval_kind_index_sound ScheduleIntervalKind.break = refl

instance abbrev pub schedule_interval_kind_enum : Enum ScheduleIntervalKind
schedule_interval_kind_enum = record {
  index = schedule_interval_kind_index;
  members = schedule_interval_kind_members;
  index_sound = schedule_interval_kind_index_sound;
}

pub data ScheduleExceptionKind : Type 0 where
  day_off leave sick working_window break : ScheduleExceptionKind

abbrev pub schedule_exception_kind_index : ScheduleExceptionKind → ℕ
schedule_exception_kind_index ScheduleExceptionKind.day_off = 0
schedule_exception_kind_index ScheduleExceptionKind.leave = 1
schedule_exception_kind_index ScheduleExceptionKind.sick = 2
schedule_exception_kind_index ScheduleExceptionKind.working_window = 3
schedule_exception_kind_index ScheduleExceptionKind.break = 4

abbrev pub schedule_exception_kind_members : List ScheduleExceptionKind
schedule_exception_kind_members =
    ScheduleExceptionKind.day_off ∷ ScheduleExceptionKind.leave ∷ ScheduleExceptionKind.sick
    ∷ ScheduleExceptionKind.working_window ∷ ScheduleExceptionKind.break ∷ []

pub schedule_exception_kind_index_sound :
    (a : ScheduleExceptionKind)
    → get_elem? schedule_exception_kind_members (schedule_exception_kind_index a) ≡ some a
schedule_exception_kind_index_sound ScheduleExceptionKind.day_off = refl
schedule_exception_kind_index_sound ScheduleExceptionKind.leave = refl
schedule_exception_kind_index_sound ScheduleExceptionKind.sick = refl
schedule_exception_kind_index_sound ScheduleExceptionKind.working_window = refl
schedule_exception_kind_index_sound ScheduleExceptionKind.break = refl

instance abbrev pub schedule_exception_kind_enum : Enum ScheduleExceptionKind
schedule_exception_kind_enum = record {
  index = schedule_exception_kind_index;
  members = schedule_exception_kind_members;
  index_sound = schedule_exception_kind_index_sound;
}

pub data AvailabilityWindowStatus : Type 0 where
  open_ reserved booked closed expired : AvailabilityWindowStatus

abbrev pub availability_window_status_index : AvailabilityWindowStatus → ℕ
availability_window_status_index AvailabilityWindowStatus.open_ = 0
availability_window_status_index AvailabilityWindowStatus.reserved = 1
availability_window_status_index AvailabilityWindowStatus.booked = 2
availability_window_status_index AvailabilityWindowStatus.closed = 3
availability_window_status_index AvailabilityWindowStatus.expired = 4

abbrev pub availability_window_status_members : List AvailabilityWindowStatus
availability_window_status_members =
    AvailabilityWindowStatus.open_ ∷ AvailabilityWindowStatus.reserved
    ∷ AvailabilityWindowStatus.booked ∷ AvailabilityWindowStatus.closed
    ∷ AvailabilityWindowStatus.expired ∷ []

pub availability_window_status_index_sound :
    (a : AvailabilityWindowStatus)
    → get_elem? availability_window_status_members (availability_window_status_index a) ≡ some a
availability_window_status_index_sound AvailabilityWindowStatus.open_ = refl
availability_window_status_index_sound AvailabilityWindowStatus.reserved = refl
availability_window_status_index_sound AvailabilityWindowStatus.booked = refl
availability_window_status_index_sound AvailabilityWindowStatus.closed = refl
availability_window_status_index_sound AvailabilityWindowStatus.expired = refl

instance abbrev pub availability_window_status_enum : Enum AvailabilityWindowStatus
availability_window_status_enum = record {
  index = availability_window_status_index;
  members = availability_window_status_members;
  index_sound = availability_window_status_index_sound;
}

pub data NotificationType : Type 0 where
  client_reminder admin_reminder review_request repeat_booking_reminder payment_due_client
        payment_review_staff :
      NotificationType

abbrev pub notification_type_index : NotificationType → ℕ
notification_type_index NotificationType.client_reminder = 0
notification_type_index NotificationType.admin_reminder = 1
notification_type_index NotificationType.review_request = 2
notification_type_index NotificationType.repeat_booking_reminder = 3
notification_type_index NotificationType.payment_due_client = 4
notification_type_index NotificationType.payment_review_staff = 5

abbrev pub notification_type_members : List NotificationType
notification_type_members =
    NotificationType.client_reminder ∷ NotificationType.admin_reminder
    ∷ NotificationType.review_request ∷ NotificationType.repeat_booking_reminder
    ∷ NotificationType.payment_due_client ∷ NotificationType.payment_review_staff ∷ []

pub notification_type_index_sound :
    (a : NotificationType)
    → get_elem? notification_type_members (notification_type_index a) ≡ some a
notification_type_index_sound NotificationType.client_reminder = refl
notification_type_index_sound NotificationType.admin_reminder = refl
notification_type_index_sound NotificationType.review_request = refl
notification_type_index_sound NotificationType.repeat_booking_reminder = refl
notification_type_index_sound NotificationType.payment_due_client = refl
notification_type_index_sound NotificationType.payment_review_staff = refl

instance abbrev pub notification_type_enum : Enum NotificationType
notification_type_enum = record {
  index = notification_type_index;
  members = notification_type_members;
  index_sound = notification_type_index_sound;
}
