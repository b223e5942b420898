-- ===== src/Interpreter/Sound.antt =====
-- The recursive evaluation of a script and the policy of the script.
pub mod Bases
pub mod Leaves
pub mod Keys
pub mod Combinators
pub mod Rules
pub mod Steps
pub mod Recursion
