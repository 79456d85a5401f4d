-- ===== src/Core.antt =====
-- packages/hammertime-core: the configuration, the state machine and the arithmetic of time and
-- addresses that every service shares.
pub mod Integers
pub mod Config
pub mod State
pub mod Weight
pub mod Time
pub mod Address
pub mod Prefix
pub mod Events
pub mod Json
pub mod Codec
mod Tests
