-- ===== src/Ext.antt =====
-- src/miniscript/types/extra_props.rs: sizes, limits and timelocks of a fragment.
pub mod Timelock
pub mod Data
pub mod Wrappers
pub mod Combinators
pub mod Leaves
pub mod Threshold
