-- ===== src/Backend.antt =====
-- crates/backend/src: who may call, what a push is, and what the services and handlers do.
pub mod Auth
pub mod Ingest
pub mod Error
pub mod Service
pub mod Dto
pub mod Handlers
pub mod Health
pub mod Regions
