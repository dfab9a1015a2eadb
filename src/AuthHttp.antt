-- ===== src/AuthHttp.antt =====
-- internal/feature/auth/authhttp: the handlers in front of the sessions.
pub mod Cookies
pub mod Handler
pub mod Refresh
pub mod OauthHandler
pub mod Callback
