-- ===== src/Reservations.antt =====
-- app/services/reservation_service.py and app/workers/reservation_expiry.py: the holds of one
-- business on its windows. The children hold the rows and the repositories' queries, the rules and
-- the operations of the service, the worker, and what is proved.
pub mod Store
pub mod Rules
pub mod Create
pub mod Consume
pub mod Expire
pub mod Worker
pub mod Reminders
pub mod Prepayment
pub mod Reported
pub mod Lookups
pub mod Exclusive
pub mod Frames
pub mod Moves
pub mod Expiry
pub mod Paid
pub mod Reconciled
pub mod Consumed
pub mod Replay
pub mod Placed
pub mod Released
pub mod Cycle
pub mod Overdue
pub mod Finished
pub mod Reachable
