-- ===== src/Trust/Invariant.antt =====
-- The invariants of the identity log's state, one module for each concern.
pub mod Devices
pub mod Quorum
pub mod Facts
pub mod Approvals
