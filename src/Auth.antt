-- ===== src/Auth.antt =====
-- internal/auth: the bearer of a request, its verification, and the tokens of panel sessions.
pub mod Bearer
pub mod Session
pub mod Trips
pub mod Issued
