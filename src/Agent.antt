-- ===== src/Agent.antt =====
-- crates/agent/src: the local checks of a host, the buffer, and the push loop.
pub mod Buffer
pub mod Checks
pub mod Cycle
