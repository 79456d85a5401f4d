-- ===== src/Ingest.antt =====
-- services/ingest: what stands between an agent's message and the log.
pub mod Dedup
pub mod RateLimit
mod Tests
