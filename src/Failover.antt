-- ===== src/Failover.antt =====
-- The failover decision core (src/failover/core.rs): standby streams verified against the active
-- one, and the switch to a standby that continues the node's chain.
pub mod Upstream
pub mod Core
pub mod Switch
pub mod Session
mod Tests
