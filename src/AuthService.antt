-- ===== src/AuthService.antt =====
-- The authentication service (internal/app/auth/service.go) over the store.
pub mod Guards
pub mod Users
pub mod Tokens
pub mod Sessions
pub mod Grants
pub mod Robots
