-- ===== src/Audit.antt =====
-- apps/api/src/modules/audit: canonical JSON and the hash-chained audit log.
pub mod CanonicalJson
pub mod Service
pub mod Chain
pub mod Column
pub mod Intact
pub mod Lifecycle
pub mod Tamper
