-- ===== src/Shared.antt =====
-- The shared crate: errors, the JWT extractor, scopes and the health check.
pub mod Errors
pub mod JwtAuth
pub mod Pools
pub mod Health
