-- ===== src/Files.antt =====
-- crates/events/src/files.rs: the replicated store of blocks, and the heads of its branches.
pub mod Store
pub mod Version
pub mod Splice
pub mod Stable
pub mod Sizes
pub mod Total
pub mod History
pub mod Tests
