-- ===== src/Contacts.antt =====
-- Trusted contacts, and what a user puts into bundles (apps/api/src/modules/contacts, bundles and
-- messages).
pub mod Service
pub mod Bundles
pub mod Budget
pub mod Grants
