-- ===== src/Client.antt =====
-- src/client.rs: the ports, the deadlines and the progress of a client.
pub mod Ports
pub mod Progress
mod Examples
