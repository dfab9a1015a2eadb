-- ===== src/Transport.antt =====
-- The HTTP middleware of internal/transport: authentication by JWT and protection against CSRF.
pub mod Request
pub mod Jwt
pub mod Csrf
