-- ===== src/Cli.antt =====
-- src/main.rs: what the command line and the configuration file are read as. Text is a list of ASCII
-- codes.
pub mod Numbers
pub mod Sizes
pub mod Suffixes
pub mod Address
pub mod Hosts
pub mod Options
pub mod Accepted
mod Examples
