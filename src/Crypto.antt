-- ===== src/Crypto.antt =====
-- apps/api/src/modules/crypto: keys that only one role may unwrap, and sealed payloads.
pub mod Kms
pub mod Envelope
