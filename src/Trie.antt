-- ===== src/Trie.antt =====
-- services/trie: the index of HOT addresses by prefix.
pub mod Binary
pub mod HotSet
pub mod State
pub mod Arena
pub mod Combine
pub mod Local
pub mod Interface
pub mod Records
pub mod Publisher
pub mod Worker
mod Tests
