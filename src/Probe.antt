-- ===== src/Probe.antt =====
-- src/probe.rs: the path-MTU probe. Its packets, the ladder of trial sizes, and the search driver.
pub mod Packet
pub mod Search
mod Examples
