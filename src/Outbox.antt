-- ===== src/Outbox.antt =====
-- apps/api/src/modules/outbox: the transactional outbox.
pub mod Service
pub mod Lifecycle
pub mod Once
