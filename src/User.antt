-- ===== src/User.antt =====
-- user-service: users, their cache, the consumer of registrations and the HTTP handlers.
pub mod Models
pub mod UserRepository
pub mod Calls
pub mod Cache
pub mod UserService
pub mod Consumer
pub mod UserController
pub mod Coherence
pub mod Transparency
