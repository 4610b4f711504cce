-- ===== src/Docker.antt =====
-- internal/infrastructure/docker, one module for each file or part of it.
pub mod Config
pub mod Client
pub mod Instance
pub mod Init
pub mod Lifecycle
pub mod Attach
pub mod Servers
pub mod Samples
mod Tests
