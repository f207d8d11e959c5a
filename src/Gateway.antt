-- ===== src/Gateway.antt =====
-- The crate gateway.
pub mod InFlight
pub mod Journey
pub mod Stats
pub mod Delete
pub mod Create
pub mod Redirect
pub mod CoreClient
pub mod Startup
pub mod State
mod Tests
mod InFlightTests
mod JourneyTests
