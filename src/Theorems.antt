-- ===== src/Theorems.antt =====
-- What holds across the use cases.
pub mod SignOut
pub mod Kept
pub mod History
pub mod Atomic
pub mod Revoked
pub mod Admission
pub mod Unique
pub mod Accounts
pub mod Signup
pub mod Recovered
pub mod Widths
pub mod Guesses
