-- ===== src/RegistryService.antt =====
-- The registry service (internal/app/regixtry): uploads, manifests, queries and the garbage
-- collector, on the blob store and the metadata store.
pub mod Payloads
pub mod Requests
pub mod Uploads
pub mod Manifests
pub mod Queries
pub mod Collection
pub mod Referrers
