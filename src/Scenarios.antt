-- ===== src/Scenarios.antt =====
-- apps/api/src/modules/scenarios: what a user does with a scenario.
pub mod Service
pub mod Active
pub mod Burned
pub mod Lifecycle
