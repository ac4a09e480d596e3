-- ===== src/Policy.antt =====
-- internal/policy: the decision by scopes, and the credential of a panel's actor.
pub mod Decide
pub mod Allowed
pub mod Actor
