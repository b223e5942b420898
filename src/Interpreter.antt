-- ===== src/Interpreter.antt =====
-- src/interpreter: the keys and the errors, the stack of witness elements, the iterator over the
-- satisfied constraints, a recursive evaluator, and what relates them.
pub mod Keys
pub mod Stack
pub mod Iter
pub mod Arms
pub mod Machine
pub mod Evaluator
pub mod Refine
pub mod Inner
pub mod Sound
pub mod Results
pub mod Genuine
pub mod Acceptance
pub mod Settled
