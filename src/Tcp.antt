-- ===== src/Tcp.antt =====
-- src/tcp.rs: the data plane over TCP.
pub mod Teardown
pub mod Send
pub mod Receive
pub mod Acked
pub mod Pause
mod Examples
