-- ===== src/Auth.antt =====
-- The authentication domain (internal/domain/auth).
pub mod Errors
pub mod User
pub mod Grant
pub mod Scope
pub mod Token
pub mod Principal
