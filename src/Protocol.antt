-- ===== src/Protocol.antt =====
-- crates/protocol/src: the text checks and the schema of the identity log.
pub mod Text
pub mod Schema
pub mod Ipld
pub mod IpldRound
