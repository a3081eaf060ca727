-- ===== src/League.antt =====
-- crates/league/src: the leagues of a club, as a domain of the governance.
pub mod State
pub mod Teams
pub mod Seats
pub mod Scores
pub mod Season
pub mod Step
pub mod Seated
pub mod Fill
pub mod Fair
pub mod Entering
pub mod Life
pub mod Tally
pub mod Ledger
pub mod Orders
pub mod Once
pub mod Apart
pub mod Roster
pub mod Paths
pub mod Disputes
mod Tests
mod TestsSeason
