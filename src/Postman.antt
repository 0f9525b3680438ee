-- ===== src/Postman.antt =====
-- postman/generator: a Postman collection from the services' OpenAPI specifications and an overlay.
pub mod Value
pub mod Text
pub mod Overlay
pub mod Operations
pub mod Script
pub mod Requests
pub mod Collection
pub mod Specs
