-- ===== src/Storage.antt =====
-- The state behind the registry: the files of the blob directory and the tables of the metadata
-- database, with what the service is built from.
pub mod Files
pub mod Tables
pub mod State
