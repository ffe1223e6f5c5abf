-- ===== src/Protocol.antt =====
-- packages/protocol/src: the wire types, and the pure functions on queues and pointers that the
-- server and the clients share.
pub mod Types
pub mod Tracks
pub mod Pointer
pub mod Value
pub mod Ops
pub mod Envelope
mod Tests
