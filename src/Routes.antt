-- ===== src/Routes.antt =====
-- internal/routes/catalog.go: the route catalog and the matching of requests to routes.
mod Types
pub mod Operations
pub mod Overrides
pub mod Pattern
pub mod Openapi
pub mod Strict
pub mod Matching
pub mod Facts
pub mod Catalog
pub mod Slashes
pub use Types.*
