-- ===== src/Openapi.antt =====
-- internal/delivery/http/openapi: the conversions between API values and server configurations.
pub mod Spec
pub mod Routes
pub mod Patterns
pub mod Convert
pub mod Union
pub mod Strict
mod Tests
