-- ===== src/Alerts.antt =====
-- internal/alerts/alerts.go: which denials are reported, and the buckets that gather them.
mod Defs
pub mod Conserved
pub mod Manager
pub mod Accounts
pub mod Message
pub mod Redacted
unfoldable pub use Defs.*
