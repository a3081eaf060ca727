-- ===== src/Trust.antt =====
-- crates/identity/src/trust.rs: the identity log, its facts and the records that change them.
pub mod State
pub mod Members
pub mod Chairs
pub mod Grants
pub mod Log
pub mod Step
pub mod Invariant
pub mod Authority
pub mod Replay
pub mod Genesis
pub mod Signatures
mod Tests
