-- ===== src/State.antt =====
-- apps/api/src/modules/state: the table of scenario transitions and StateMachineService.
pub mod Table
pub mod Service
pub mod Diagram
pub mod Lifecycle
pub mod Outcome
