-- ===== src/Descriptor.antt =====
-- src/descriptor: the checksum of a text, and Taproot trees.
pub mod Checksum
pub mod TapTree
