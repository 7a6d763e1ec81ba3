-- ===== src/Auth.antt =====
-- services/auth: users, roles, access and refresh tokens.
pub mod Role
pub mod Host
pub mod Store
pub mod Jwt
pub mod Usecase
pub mod Interceptor
pub mod Server
