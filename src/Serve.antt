-- ===== src/Serve.antt =====
-- src/serve.rs: the server's decisions over single-port UDP hellos and its timeouts.
pub mod Hello
pub mod Timeouts
pub mod Reporting
mod Examples
