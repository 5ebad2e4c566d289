-- ===== src/Stats.antt =====
-- src/stats.rs: what is counted of a stream and of a test.
pub mod Stream
pub mod Intervals
pub mod Aggregate
pub mod Totals
pub mod Final
mod Examples
