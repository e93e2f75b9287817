-- ===== src/Schema.antt =====
-- The data of the service: enumerations, table rows, values of JSON and errors
-- (apps/api/prisma/schema.prisma and the error classes of apps/api/src/modules).
mod Enums
mod Json
mod Rows
mod Errors
unfoldable pub use Enums.*
pub use Json.*
pub use Rows.*
pub use Errors.*
