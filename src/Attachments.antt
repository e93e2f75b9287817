-- ===== src/Attachments.antt =====
-- apps/api/src/modules/attachments: files that recipients fetch by a link.
pub mod Mime
pub mod Token
pub mod Name
pub mod Layout
pub mod Service
pub mod Issuer
pub mod Download
pub mod Sealed
pub mod Frame
pub mod Uses
pub mod Delivered
