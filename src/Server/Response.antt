-- ===== src/Server/Response.antt =====
-- internal/server/server.go: the policies on responses. An error is its text, and none stands for no error.
pub mod Squads
pub mod Pages
pub mod Policy
pub mod Recounted
pub mod Shown
pub mod Redacted
