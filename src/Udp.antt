-- ===== src/Udp.antt =====
-- src/udp.rs: the data plane over UDP.
pub mod Wire
pub mod Token
pub mod Tracker
pub mod Pacing
pub mod Feedback
mod Examples
