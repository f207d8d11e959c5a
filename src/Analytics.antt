-- ===== src/Analytics.antt =====
-- The crate analytics: the service that counts clicks.
mod ConsumerTests
mod PersistenceTests
pub mod EventConsumer
pub mod Persistence
pub mod Redis
pub mod RedisStats
pub mod Grpc
pub mod Repository
pub mod Queries
pub mod Startup
pub mod Updates
pub mod Snapshot
pub mod Merge
mod Tests
mod UpdateTests
mod ServiceTests
