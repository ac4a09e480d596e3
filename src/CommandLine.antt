-- ===== src/CommandLine.antt =====
-- cmd/remnaguard/main.go: the commands that edit a token file.
pub mod Tokens
pub mod Save
pub mod Commands
pub mod Kept
pub mod Restored
pub mod Edited
pub mod Changed
pub mod Rotated
