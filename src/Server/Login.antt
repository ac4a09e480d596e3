-- ===== src/Server/Login.antt =====
-- internal/server/server.go: the panel's login by Telegram.
pub mod Members
pub mod Keys
pub mod IdToken
pub mod Handlers
pub mod Vouched
pub mod Exchanged
pub mod LoggedIn
