-- ===== src/Projection.antt =====
-- app/domain/schedule_projection.py: from schedules to the bookable slots of one local day.
pub mod Ranges
pub mod Groups
pub mod Schedules
pub mod Zones
pub mod Slots
pub mod Day
