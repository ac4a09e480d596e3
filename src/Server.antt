-- ===== src/Server.antt =====
-- internal/server/server.go: the gateway.
pub mod Effective
pub mod Writes
pub mod OauthStore
pub mod Credential
pub mod ListFilter
pub mod Body
pub mod Env
pub mod Request
pub mod Response
pub mod Handler
pub mod VersionGuard
pub mod Runtime
pub mod Login
