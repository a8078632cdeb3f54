-- ===== src/Client.antt =====
-- The HTTP client: apierrors.go, client.go, clientstate.go and access_token.go.
pub mod Errors
pub mod Retry
pub mod State
pub mod Url
pub mod Request
pub mod Context
pub mod Login
pub mod Verify
pub mod Token
pub mod Open
pub mod Redact
pub mod Saved
