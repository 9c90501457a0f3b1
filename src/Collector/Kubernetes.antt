-- ===== src/Collector/Kubernetes.antt =====
-- crates/collector-kubernetes/src: what a poll of a cluster tells of a resource (lib.rs, client.rs),
-- and which server and token a kubeconfig names (kubeconfig.rs). The HTTP client and the parsers are
-- libraries: a response is what the client gives, a body what the accessors of a JSON value tell of
-- it, and a kubeconfig its fields.
pub mod Health
pub mod Access
