-- ===== src/Database.antt =====
-- adapter/database: the tables, and the repositories over them as functions on one view of the
-- database. A repository reads and writes the view of the open transaction; what a failed
-- constraint raises is `Error.integrity`, and a text of a device that is too wide for its column is
-- `Error.too_long`.
--
-- Rows stand in the order of their insertion, and a table gives out ids in that order, so ORDER BY
-- id is the order of the list. A sequence that Postgres does not roll back leaves gaps in the ids;
-- here an id that was never committed is given out again.
mod Tables
unfoldable pub use Tables.*
pub mod Users
pub mod Roles
pub mod Permissions
pub mod Sessions
pub mod Tokens
pub mod AuditLog
