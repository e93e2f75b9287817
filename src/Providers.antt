-- ===== src/Providers.antt =====
-- apps/api/src/modules/providers: the classification of errors and the adapter.
pub mod Classify
pub mod Adapter
pub mod Once
pub mod Permanent
