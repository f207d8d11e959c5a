-- ===== src/Common.antt =====
-- The crate common: what the three services share.
pub mod Config
pub mod Events
pub mod RedisKeys
pub mod DbErrors
pub mod Database
pub mod Rpc
mod Tests
mod ConfigTests
pub mod Connections
pub mod Retry
