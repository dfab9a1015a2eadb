-- ===== src/Oauth.antt =====
-- Login by an OAuth2 provider: internal/feature/auth/oauth.go, oauth_state_store.go,
-- oauth_account_repository.go and the transaction of user_repository.go.
pub mod Store
pub mod States
pub mod Flow
pub mod Creation
pub mod Registration
pub mod Linking
pub mod Replay
pub mod Begin
