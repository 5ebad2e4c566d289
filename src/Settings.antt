-- ===== src/Settings.antt =====
-- src/tui/settings.rs: the settings of the terminal interface, and the keys that change them.
pub mod Cycles
pub mod State
pub mod Invariant
pub mod Presses
mod Examples
