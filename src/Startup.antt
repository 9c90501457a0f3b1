-- ===== src/Startup.antt =====
-- src/main.rs: the commands that edit the configuration, and the start of the daemon.
pub mod Commands
pub mod Boot
