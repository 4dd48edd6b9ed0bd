-- ===== src/Push.antt =====
-- Live block streams (src/push/live.rs): the progress of a stream, the freshest round that several
-- streams agree on, and what a push session does with a frame.
pub mod Freshest
pub mod Progress
pub mod Live
mod Tests
