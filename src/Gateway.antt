-- ===== src/Gateway.antt =====
-- src/gateway: the one public door. It finds the service of a path, asks users-service who calls,
-- and forwards the request with headers that the services trust.
pub mod Routes
pub mod Headers
pub mod Identity
pub mod Proxy
