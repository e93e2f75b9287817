-- ===== src/Admin.antt =====
-- The requests of operators (apps/api/src/modules/admin).
pub mod Kinds
pub mod Snapshot
pub mod Service
pub mod Frame
pub mod Control
