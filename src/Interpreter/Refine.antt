-- ===== src/Interpreter/Refine.antt =====
-- The iterator of src/interpreter/mod.rs and the recursive evaluation.
pub mod Rounds
pub mod Indices
pub mod Multi
pub mod Nodes
pub mod Recursion
