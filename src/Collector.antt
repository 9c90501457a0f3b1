-- ===== src/Collector.antt =====
-- The collectors that are configured, crates/collector-kubernetes/src.
pub mod Kubernetes
