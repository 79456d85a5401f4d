-- ===== src/Bus.antt =====
-- packages/hammertime-bus: the log that the services share.
pub mod Memory
pub mod Topics
mod Tests
