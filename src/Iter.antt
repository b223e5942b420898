-- ===== src/Iter.antt =====
-- src/iter: walks over trees.
pub mod Tree
pub mod Nodes
