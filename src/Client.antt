-- ===== src/Client.antt =====
-- packages/room/src/lib and apps/desktop/src/lib: what a client keeps of a room, of its own queue
-- and of its line to the server.
pub mod ClockOffset
pub mod View
pub mod Ops
pub mod QueueStore
pub mod Room
pub mod Connection
pub mod Shuffle
pub mod Playlists
pub mod PlaylistsStore
pub mod Enqueue
pub mod Selection
mod Tests
