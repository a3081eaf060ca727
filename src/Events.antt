-- ===== src/Events.antt =====
-- crates/events: events, workflows of an organization, points, and the domain of its chain.
pub mod Organization
pub mod State
pub mod Points
pub mod Attest
pub mod Evidence
pub mod Plans
pub mod Final
pub mod Games
pub mod Office
pub mod Step
pub mod Queries
pub mod Windows
pub mod Frame
pub mod Lifecycle
pub mod Cleared
pub mod Apart
pub mod Attendance
mod Tests
pub mod Caps
pub mod Attested
pub mod Ledger
pub mod Settled
