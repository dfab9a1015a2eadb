-- ===== src/Credentials.antt =====
-- Users and their passwords: internal/feature/auth/user_repository.go and credentials.go.
pub mod Users
pub mod Login
