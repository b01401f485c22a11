-- ===== src/Service.antt =====
-- The setting in which the use cases run: what they take from outside (`External`), the state that
-- they share and the actions on it (`World`), and the pieces that several use cases call.
mod Outside
mod Actions
mod Dto
pub use Outside.*
pub use Actions.*
pub use Dto.*
pub mod Steps
pub mod TokenService
