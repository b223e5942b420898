-- ===== src/Types.antt =====
-- src/miniscript/types: the type system of Miniscript.
pub mod Kinds
pub mod Correctness
pub mod Malleability
pub mod Fragment
pub mod Sanity
pub mod Subtype
