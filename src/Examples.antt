-- ===== src/Examples.antt =====
-- Concrete inputs of the bot: runs of the definitions, and the theorems applied to them.
mod Schedules
mod Rules
mod Money
mod Holds
mod Team
