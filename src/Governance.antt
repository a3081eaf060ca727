-- ===== src/Governance.antt =====
-- crates/state/src: the governance state machine of a business chain, over a domain of its own.
pub mod State
pub mod Consensus
pub mod Core
pub mod Apply
pub mod Admins
pub mod Accepted
pub mod History
pub mod Actors
mod Tests
