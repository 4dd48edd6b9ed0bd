-- ===== src/Gateway.antt =====
-- The gateway's state of its nodes (src/gateway/node.rs) and the prefetch of client blocks
-- (src/gateway/client_blocks.rs).
pub mod Cache
pub mod Answers
pub mod Select
pub mod Replay
pub mod Prefetch
pub mod Node
pub mod Registry
pub mod Catchup
mod Tests
