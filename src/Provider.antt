-- ===== src/Provider.antt =====
-- The pluggable services, crates/provider/src: one module for each of the parts that hold behaviour.
pub mod Error
pub mod Collector
pub mod Notifier
pub mod Config
pub mod Registry
pub mod Cache
pub mod Store
