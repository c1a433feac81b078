-- ===== src/Entrypoints.antt =====
-- entrypoints/: the routes over the message bus.
pub mod Schemas
pub mod Constraints
pub mod Responses
pub mod Requests
pub mod Api
pub mod Health
pub mod Settings
pub mod Container
