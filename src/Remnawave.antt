-- ===== src/Remnawave.antt =====
-- internal/remnawave/user.go: the users in a response of the upstream, and who may have them.
mod Types
pub mod Decode
pub mod Owns
mod Blank
pub mod Ownership
pub mod Refs
pub mod Squads
pub mod Empty
pub use Types.*
