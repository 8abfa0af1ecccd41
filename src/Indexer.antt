-- ===== src/Indexer.antt =====
-- services/infra/src/indexer: decoded contract logs to store operations, and the poller that walks
-- the chain in batches of blocks.
pub mod Decoder
pub mod Poller
pub mod Cache
pub mod DemoStatus
