-- ===== src/Control.antt =====
-- The control channel: src/control_crypto.rs and the line reader of src/serve.rs.
pub mod Codec
pub mod Keys
pub mod Reader
pub mod Transport
mod Examples
