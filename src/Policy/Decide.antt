-- ===== src/Policy/Decide.antt =====
-- internal/policy/policy.go: the decision on a request by its token's scopes.
use remnaguard.Prelude.{
  String, Bool, true, false, Option, none, some, List, [], ◌∷◌, ◌||◌, if◌then◌else◌, ◌+++◌,
}
use remnaguard.Config.{TokenPolicy, contains}
use remnaguard.Routes.{
  Route, Support, policy_enforced, privileged, unsupported, public_subscription, other,
}

pub record Decision : Type 0 where
  pub allow : Bool
  pub reason : String
  pub route : Route

abbrev pub allowed : Route → Decision
allowed route = record { allow = true; reason = ""; route = route }

abbrev pub denied : String → Route → Decision
denied reason route = record { allow = false; reason = reason; route = route }

-- hasPrivilegedScope; hasScope is `contains`.
unfoldable pub has_privileged_scope : List String → Bool
has_privileged_scope scopes = contains scopes "remnawave:*" || contains scopes "privileged:*"

-- The loop over the route's scopes.
unfoldable pub any_scope : List String → List String → Bool
unfolding has_privileged_scope
any_scope have [] = false
any_scope have (scope ∷ scopes) =
    contains have scope || has_privileged_scope have || any_scope have scopes

unfoldable pub decide_support : List String → Support → Route → Decision
unfolding any_scope
decide_support scopes unsupported route = denied "unsupported_route" route
decide_support scopes privileged route =
    if has_privileged_scope scopes then allowed route else denied "privileged_scope_required" route
decide_support scopes policy_enforced route =
    if any_scope scopes route.scopes then allowed route else denied "missing_scope" route
decide_support scopes public_subscription route =
    denied "public_subscription_not_authenticated" route
decide_support scopes (other s) route = denied "unknown_support" route

-- Decide; the token is a pointer that may be nil.
unfoldable pub decide : Option TokenPolicy → Route → Decision
unfolding decide_support
decide none route = denied "missing_token" route
decide (some tok) route =
    if tok.disabled
    then denied "missing_token" route
    else decide_support tok.scopes route.support route

-- String, of a decision
unfoldable pub show_decision : Decision → String
show_decision d = if d.allow then "allow: " +++ d.route.name else "deny: " +++ d.reason
