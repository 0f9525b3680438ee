-- ===== src/Auth.antt =====
-- auth-service: registration, OAuth clients, authorization codes with PKCE, and tokens.
pub mod Models
pub mod Errors
pub mod Tables
pub mod Config
pub mod Repositories
pub mod External
pub mod Calls
pub mod Cache
pub mod Services
pub mod KafkaService
pub mod Controllers
