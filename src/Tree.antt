-- ===== src/Tree.antt =====
-- swayr/src/tree.rs: the tree of nodes with its two maps, and the lists of nodes that the commands
-- choose from.
pub mod Build
pub mod Listing
pub mod Arms
pub mod Display
