-- ===== src/Entities.antt =====
-- The domain entities of users_service/entities: what an account, a role, a login session, a
-- one-time token and an audit event are, and the rules that they own themselves.
pub mod Datetime
pub mod User
pub mod Codes
pub mod Session
pub mod SecurityToken
pub mod Audit
