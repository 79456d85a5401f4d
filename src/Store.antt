-- ===== src/Store.antt =====
-- packages/hammertime-store: what has been seen of each agent, and what a shard's next owner inherits.
pub mod Dedup
pub mod Shards
pub mod Agents
mod Tests
