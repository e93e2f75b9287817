-- ===== src/Auth.antt =====
-- Accounts and sessions (apps/api/src/modules/auth and sessions).
pub mod Cache
pub mod Service
pub mod Strategy
pub mod Rotation
pub mod Revoked
