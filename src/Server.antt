-- ===== src/Server.antt =====
-- apps/server/src: the signaling server.
pub mod RoomState
pub mod HandleOp
pub mod ReplayGuard
pub mod IdentityStore
pub mod Rooms
pub mod Connections
pub mod World
pub mod Heartbeat
pub mod Session
mod Tests
