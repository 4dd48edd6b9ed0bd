-- ===== src/Protocol.antt =====
-- The wire protocol (src/protocol.rs): constants, rounds, the bounded LZ4 header decode, frames,
-- round clusters, and the gate that decides which block rounds are forwarded.
pub mod Rounds
pub mod Scan
pub mod Lz4
pub mod BlockRound
pub mod Forward
pub mod Frames
pub mod Cluster
mod Tests
