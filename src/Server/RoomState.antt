-- ===== src/Server/RoomState.antt =====
-- apps/server/src/room-state.ts, the functional core of a room. `Core` holds the state and what the
-- source calls internals, `Ops` the operations, `View` the projection for one recipient.
pub mod Core
pub mod Ops
pub mod View
pub mod Membership
pub mod Turns
pub mod Playback
pub mod Settle
pub mod Queues
pub mod Sound
pub mod Rotation
pub mod Prediction
pub mod Position
