-- ===== src/Ept.antt =====
-- The extended page tables: crates/bedrock-ept.
pub mod Entry
pub mod Frames
pub mod Table
pub mod Walk
pub mod Grow
pub mod Tree
pub mod Map
pub mod Remap
pub mod Clone
