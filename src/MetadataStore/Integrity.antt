-- ===== src/MetadataStore/Integrity.antt =====
-- The references between the rows of the metadata store, and what its payloads hash to
-- (internal/infra/metadata/sqlite/store.go).
pub mod Rows
pub mod Publishing
pub mod Deleting
