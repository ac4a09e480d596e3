-- ===== src/RateLimit.antt =====
-- internal/ratelimit/limit.go: the counting semaphore, the semaphores by key and the fixed window.
-- A channel of capacity n that holds only tokens is the number of tokens in it. Times are
-- nanoseconds since Go's zero time, and a duration is a signed number of them.
mod Defs
pub mod Semaphores
pub mod Returned
pub mod Window
pub mod Rate
mod Runs
unfoldable pub use Defs.*
