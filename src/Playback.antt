-- ===== src/Playback.antt =====
-- apps/desktop/src/lib/playback: the driver that keeps the local Spotify client with the room.
pub mod Observation
pub mod Commands
pub mod Expectations
pub mod Stuck
pub mod Mode
pub mod Desired
pub mod Reconcile
pub mod Classify
pub mod Pending
pub mod Agreement
pub mod Prune
pub mod Verdict
pub mod Driver
mod Tests
