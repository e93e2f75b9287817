-- ===== src/Workers.antt =====
-- The loops of apps/api/src/workers.
pub mod Relay
pub mod Treats
pub mod Kept
pub mod Progress
