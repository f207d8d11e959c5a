-- ===== src/Core.antt =====
-- The crate core: the service that owns the links.
pub mod Repository
pub mod Cache
pub mod Service
pub mod Coherence
mod Tests
pub mod Main
pub mod Startup
mod MainTests
mod StartupTests
