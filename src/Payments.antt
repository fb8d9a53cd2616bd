-- ===== src/Payments.antt =====
-- Payments.
pub mod Money
pub mod Metadata
pub mod Records
pub mod Charges
pub mod Refunds
pub mod Webhooks
pub mod Intents
