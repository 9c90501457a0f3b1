-- ===== src/Storage.antt =====
-- crates/storage/src: how the rows of the SQLite store are read and written, and its operations.
pub mod Codec
pub mod Records
pub mod Rows
pub mod Error
pub mod Sqlite
