-- ===== src/Policy.antt =====
-- src/policy: what a script stands for.
pub mod Semantic
pub mod Lift
pub mod Concrete
