-- ===== src/Wire.antt =====
-- The wire between two stages: bytes, frames, the transport and the hand-off of a KV state.
pub mod Bytes
pub mod Framing
pub mod Auth
pub mod Transport
pub mod Handoff
mod Tests
