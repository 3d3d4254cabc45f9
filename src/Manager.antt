-- ===== src/Manager.antt =====
-- The workflow manager.
pub mod Models
pub mod Exec
pub mod World
pub mod Repository
pub mod Service
pub mod ExternalApi
pub mod Servicer
pub mod Requests
pub mod Samples
