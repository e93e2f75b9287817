-- ===== src/Escalation.antt =====
-- apps/api/src/modules/escalation: the escalation ladder.
pub mod Policy
pub mod Service
pub mod Release
pub mod Lifecycle
pub mod Blocked
