-- ===== src/Aggregator.antt =====
-- services/aggregator: the sliding window of each IP, the lateness policy, and the transitions.
pub mod Counter
pub mod Lateness
pub mod Window
pub mod Transitions
mod Tests
