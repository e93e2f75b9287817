-- ===== src/Releases.antt =====
-- apps/api/src/modules/releases: the execution of release actions.
pub mod Executor
pub mod Run
pub mod Delivery
pub mod Keeps
pub mod Finished
pub mod Claim
pub mod Again
