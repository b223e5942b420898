-- ===== src/Miniscript.antt =====
-- src/miniscript/mod.rs, decode.rs and context.rs: the syntax tree, its annotations and the checks
-- that each script context makes.
pub mod Analysis
pub mod Ast
pub mod Check
pub mod Context
pub mod Build
pub mod Encode
