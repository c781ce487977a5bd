-- ===== src/Index.antt =====
-- The B+ tree index of p3/src.
pub mod Array
pub mod Entry
pub mod Kids
pub mod Leaf
pub mod Inner
pub mod Store
pub mod Insertion
pub mod Scan
pub mod Tree
pub mod Build
mod Tests
