-- ===== src/Examples.antt =====
-- Concrete tables, callers and texts, with runs of the operations and applications of the theorems.
pub mod Office
pub mod Services
pub mod Domain
pub mod Listings
pub mod Accounts
pub mod Blobs
pub mod Pushes
