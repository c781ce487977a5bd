-- ===== src/Pool.antt =====
-- The buffer manager of p2/src: errors and state, the hash table, the manager.
pub mod Outcome
pub mod HashTable
pub mod Manager
mod Tests
