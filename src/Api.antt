-- ===== src/Api.antt =====
-- infrastructure/api and infrastructure/config.py of users-service: how a request is admitted
-- before a use case runs, and how an error is answered.
pub mod Models
pub mod Serializers
pub mod Routers
pub mod Cookies
pub mod Config
pub mod Csrf
pub mod Dependencies
pub mod ErrorHandlers
pub mod Laws
