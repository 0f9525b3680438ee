-- ===== src/Auth/Services.antt =====
-- auth-service/src/services.
pub mod TokenService
pub mod AuthService
pub mod OAuthService
