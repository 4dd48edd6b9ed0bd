-- ===== src/Peerd.antt =====
-- The peer daemon (src/peerd): the crawl of the peer graph and the choice of the pool.
pub mod Crawl
pub mod Pool
mod Tests
