-- ===== src/Session.antt =====
-- Refresh sessions: internal/feature/auth/session.go, session_cleanup.go and session_repository.go
-- over the tables of db/migrations.
pub mod Store
pub mod Repository
pub mod Service
pub mod Rotation
pub mod Rows
pub mod Invariant
pub mod History
