-- ===== src/Lifecycle.antt =====
-- The transition tables of app/domain: appointments, payments and refunds, reservations, and
-- requests to delete personal data. `Runs` has sequences of status changes.
pub mod Runs
pub mod Appointments
pub mod Payments
pub mod Reservations
pub mod Deletions
