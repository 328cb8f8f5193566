-- ===== src/Puzzles.antt =====
-- The exercises of pkg/. A list of nodes that only its head is held of is the list of its values.
pub mod Pairs
pub mod Segments
pub mod Reverse
pub mod Longest
pub mod Numbers
pub mod Patience
pub mod Predictions
pub mod Demos
pub mod Linked
pub mod Sum
mod Tests
