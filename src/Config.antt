-- ===== src/Config.antt =====
-- internal/config/config.go: the configuration's records and what the program computes from them.
mod Types
mod Lookup
pub mod Credentials
pub mod Headers
pub mod Checks
pub mod Parts
pub mod Validate
pub mod Valid
pub mod Defaults
pub mod Load
unfoldable pub use Types.*
unfoldable pub use Lookup.*
