-- ===== src/Enums.antt =====
-- app/domain/enums.py, by the part of the program that each enum belongs to.
mod Members
mod Staff
mod Schedule
mod Booking
mod Commerce
pub use Members.*
pub use Staff.*
pub use Schedule.*
pub use Booking.*
pub use Commerce.*
