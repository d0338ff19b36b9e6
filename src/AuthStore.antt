-- ===== src/AuthStore.antt =====
-- The PostgreSQL store of users, grants and tokens (internal/infra/auth/postgres/store.go): the
-- three tables, the statements on them as actions, and what the actions preserve.
pub mod Actions
pub mod Users
pub mod Grants
pub mod Tokens
pub mod Tables
pub mod Sound
