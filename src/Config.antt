-- ===== src/Config.antt =====
-- crates/noire-config: the versioned configuration.
pub mod Types
pub mod Check
pub mod Decode
pub mod Migration
pub mod Store
pub mod Durable
pub mod Save
pub mod Load
