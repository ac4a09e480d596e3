-- ===== src/Proxy.antt =====
-- internal/proxy/proxy.go: what passes between the client and the upstream.
mod Defs
pub mod Protected
pub mod Sent
pub mod Outbound
pub mod Inbound
pub mod Validated
unfoldable pub use Defs.*
