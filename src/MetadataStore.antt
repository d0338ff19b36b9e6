-- ===== src/MetadataStore.antt =====
-- The metadata store (internal/infra/metadata/sqlite/store.go). Each statement may fail in the
-- database; what a transaction wrote is written where its commit returns.
pub mod Joins
pub mod Uploads
pub mod Manifests
pub mod Deletions
pub mod Listings
pub mod Reports
pub mod Integrity
pub mod Resolution
pub mod Pages
pub mod Provenance
pub mod Summaries
