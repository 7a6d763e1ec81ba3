-- ===== src/Gateway.antt =====
-- services/api-gateway: the middleware before the HTTP handlers.
pub mod Http
pub mod Cache
pub mod Jwt
pub mod Rbac
pub mod Limit
pub mod Handlers
