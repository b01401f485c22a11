-- ===== src/Theorems/Kept.antt =====
-- A property of the database that every write of the repositories keeps is kept by every use case,
-- and so by every run of requests. `Kept` is what has to be shown of the writes.
mod Writes
pub use Writes.*
pub mod Auth
pub mod Recovery
pub mod Profile
pub mod Access
pub mod Runs
