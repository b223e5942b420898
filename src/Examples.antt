-- ===== src/Examples.antt =====
-- A bitcoin crate and keys that are numbers, two scripts, policies, and the theorems at them.
pub mod Setting
pub mod Scripts
mod Witnesses
mod PolicyWitnesses
mod Encoding
mod Lifting
mod Analyses
mod TapTrees
mod Walks
mod Concretes
mod Checksums
mod Spends
