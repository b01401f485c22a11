-- ===== src/Auth.antt =====
-- application/auth: the credential flow. One module per use case.
pub mod Login
pub mod Refresh
pub mod Authenticate
pub mod Logout
pub mod Verification
pub mod Register
pub mod ChangePassword
pub mod Recovery
pub mod UpdateUser
pub mod DeleteUser
