-- ===== src/Server/Body.antt =====
-- internal/server/server.go: the policies on request bodies. An error is its text, and none stands for no
-- error.
pub mod Values
pub mod Resources
pub mod Policy
pub mod Accepted
pub mod Users
pub mod Allowed
pub mod Admitted
