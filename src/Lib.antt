-- ===== src/Lib.antt =====
-- hypersync: a P2P sync gateway for Hyperliquid nodes. Nodes peer only with the gateway, which picks
-- upstream peers for them, watches their block streams and replaces a peer that stalls, lags or
-- misbehaves. This library models the gateway's decision code and proves what it does.
--
-- Parts, and how they interact:
--   * Protocol (src/protocol.rs): the round of a live block (header scan, bounded LZ4 decode),
--     plausibility of rounds, frame counting, clusters of reported rounds, and the forward gate.
--   * Failover (src/failover/core.rs): Upstream is a standby's buffer and record, Core the blocks
--     from the active and the standbys, Switch the choice of a standby and the switch to it. The
--     hash of a block is an argument: the source hashes per process. Session (src/failover/session.rs)
--     is the event loop of serve_failover over that core: what it does with each frame, connection
--     and tick is a function of the state, of the event and of what it finds outside.
--   * Push (src/push/live.rs): Freshest is the round that several streams agree on; Progress
--     holds BlockProgress and StalledBehind, which cut a stream that trails it. Live is what
--     process_live_frame and pump_merge do with a frame, and Session the loop of serve_push.
--   * Gateway (src/gateway/node.rs, src/gateway/client_blocks.rs): Node is the state of one node with
--     its pinned upstream, Catchup its run of client-block batches, Registry the nodes by address,
--     Prefetch the range requests and the next range. Cache (src/gateway/cache.rs) is the bootstrap
--     cache with the relay (Tap) and the capture (Fetch) that fill it, and Replay who gets it. Select
--     (src/gateway/select.rs) is the order of upstream candidates and the race for a live one. Answers
--     (src/gateway/client_blocks.rs) is which answer to a client-block request the node gets.
--   * Priority (src/priority.rs): the priority peers, which the gateway tries before the pool.
--   * Peerd (src/peerd/daemon.rs, src/peerd/crawl.rs): the crawl for peers and the choice of the pool
--     that the gateway reads. The answers of peers are a parameter, in any order.
--   * Maps: the standard library's maps with number keys, as association lists. Prelude: the names,
--     tests, words and lemmas that all parts share.
-- In each part, Tests holds runs of the model and each theorem at an input. An operation under a lock
-- or on one atomic is one function on the state, and an interleaving is a list of operations. An
-- `Instant` is a number of nanoseconds and is passed in. The blacklist's test is an argument.
--
-- Conventions. Bytes, rounds, lengths and counts are native numbers, and a slice or `Vec` is a
-- list. A `u32` sum that saturates is `saturating_add`. A loop is a recursion on what is left to do;
-- where that is no argument's structure it takes fuel: the length of the input, since each round
-- consumes at least a byte; the number of blocks held, since each round removes one; or the bound
-- of the source's own loop. Code outside the repository (the LZ4 library, hashing, sockets, clocks)
-- is a parameter, or is left out.
--
-- Not modelled: sockets, tasks, timers, logging, text formats and the file system, so the sessions of
-- the gateway that drive these parts (src/gateway/session.rs), the tasks around the event loops of
-- the failover and push sessions, and the vetting of a connection in src/gateway/select.rs.
pub mod Failover
pub mod Gateway
pub mod Maps
pub mod Peerd
pub mod Prelude
pub mod Priority
pub mod Protocol
pub mod Push
