-- ===== src/Httputil.antt =====
-- internal/httputil/validate.go: the checks on a request's target, its query and its headers.
mod Defs
pub mod Query
pub mod Paths
pub mod Accepted
pub mod Strip
unfoldable pub use Defs.*
