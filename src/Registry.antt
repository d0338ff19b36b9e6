-- ===== src/Registry.antt =====
-- The registry's domain types (internal/domain/regixtry).
pub mod Errors
pub mod Digest
pub mod Repository
pub mod Descriptor
pub mod Manifest
pub mod Upload
