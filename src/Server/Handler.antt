-- ===== src/Server/Handler.antt =====
-- internal/server/server.go: apiHandler and what it calls, as functions from the state before a request to
-- the state after it and the reply. A function takes what is left to do as its last argument.
pub mod World
pub mod Sends
pub mod Served
pub mod Permitted
pub mod Authorised
pub mod Preflighted
pub mod Checked
pub mod Panel
pub mod Preflight
pub mod Listing
pub mod Subscription
pub mod Api
pub mod Frees
pub mod Keyed
pub mod Pages
pub mod Turns
pub mod Gathered
pub mod Steps
pub mod Decided
pub mod Released
