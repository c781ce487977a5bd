-- ===== src/Wl.antt =====
-- The word locator of p1 (wl.h and wl.cpp): its text helpers, its radix tree, its dictionary and its
-- command loop.
pub mod Text
pub mod Node
pub mod Dictionary
pub mod Command
pub mod Context
mod Tests
