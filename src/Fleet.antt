-- ===== src/Fleet.antt =====
-- The Durable Object of worker/src/fleet.js, part by part: the state, the sockets, the HTTP
-- routes, the two upgrades, the frames and the lifecycle events.
pub mod Runtime
pub mod State
pub mod Sockets
pub mod Api
pub mod Upgrades
pub mod Frames
pub mod Lifecycle
pub mod Events
pub mod Core
pub mod Counts
pub mod Soundness
pub mod Keys
pub mod Relay
pub mod Looks
pub mod Farewells
pub mod Sweeps
pub mod Silence
pub mod Departures
pub mod Enrollment
pub mod Armed
pub mod Journeys
pub mod Listing
pub mod Order
pub mod Grants
pub mod Interleaved
pub mod Tags
