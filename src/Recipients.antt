-- ===== src/Recipients.antt =====
-- apps/api/src/modules/recipients: the secure links by which recipients reach items of a vault.
pub mod Service
pub mod Revoked
