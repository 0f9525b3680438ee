-- ===== src/Tests.antt =====
-- Concrete instances of the parameters, and the theorems at concrete inputs.
pub mod Codec
pub mod Auth
pub mod User
pub mod Postman
pub mod Coverage
pub mod Startup
