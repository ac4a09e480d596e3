-- ===== src/Server/Writes.antt =====
-- internal/server/server.go with policy.go and catalog.go: who may write through the gateway.
use remnaguard.Prelude.{
  String, true, false, some, List, [], ◌∷◌, ◌&&◌, ◌==◌, ◌≡◌, ◌≢◌, ◌⊎◌, inl, inr, refl, ap, subst,
  arith, eq_iff, Some, Bool-cases, or_false, and_true, if_both, sym, ◌∙◌, All, ℤ,
}
use remnaguard.Config.{Config, TokenPolicy, contains, effective_version}
use remnaguard.Routes.{Route, policy_enforced, privileged}
use remnaguard.Routes.Catalog.{catalog, match_route}
use remnaguard.Routes.Matching.{match_route_iff}
use remnaguard.Routes.Facts.{catalog_write_privileged}
use remnaguard.Policy.Allowed.{Permits, decide_iff}
use remnaguard.Policy.Decide.{decide, has_privileged_scope}
use remnaguard.Server.Effective.{
  WriteCase, user_create, user_update, user_action, hwid_write, node_write, untouched, write_body,
  write_case, apply_case, effective_route, read_route, write_route, writes_on, is_restricted_write,
  restricted_write_names, subscription_route,
}

read_route_write : (r : Route) → r.method ≢ "GET" → read_route r ≡ r
unfolding read_route
read_route_write r h = ground (arith, eq_iff r.method "GET")

-- A name that is not in the table is not in a part of it.
ne_of_not_contains :
    (names : List String) (name : String)
    → contains names name ≡ false
    → All (λ n. (n == name) ≡ false) names
unfolding contains
ne_of_not_contains [] name h = tt
ne_of_not_contains (n ∷ names) name h =
    let (here, later) = or_false _ _ h in (here, ne_of_not_contains names name later)

write_case_other :
    (name : String) → contains restricted_write_names name ≡ false → write_case name ≡ untouched
unfolding write_case contains
write_case_other name h =
    let n = ne_of_not_contains restricted_write_names name h in
    simp (
      n.0, n.1.0, n.1.1.0, n.1.1.1.0, n.1.1.1.1.0, n.1.1.1.1.1.0, n.1.1.1.1.1.1.0,
      n.1.1.1.1.1.1.1.0, n.1.1.1.1.1.1.1.1.0, n.1.1.1.1.1.1.1.1.1.0, n.1.1.1.1.1.1.1.1.1.1.0,
      n.1.1.1.1.1.1.1.1.1.1.1.0, n.1.1.1.1.1.1.1.1.1.1.1.1.0, n.1.1.1.1.1.1.1.1.1.1.1.1.1.0,
      n.1.1.1.1.1.1.1.1.1.1.1.1.1.1.0, n.1.1.1.1.1.1.1.1.1.1.1.1.1.1.1.0,
      n.1.1.1.1.1.1.1.1.1.1.1.1.1.1.1.1.0, n.1.1.1.1.1.1.1.1.1.1.1.1.1.1.1.1.1.0,
      n.1.1.1.1.1.1.1.1.1.1.1.1.1.1.1.1.1.1.0, n.1.1.1.1.1.1.1.1.1.1.1.1.1.1.1.1.1.1.1.0,
      n.1.1.1.1.1.1.1.1.1.1.1.1.1.1.1.1.1.1.1.1.0, n.1.1.1.1.1.1.1.1.1.1.1.1.1.1.1.1.1.1.1.1.1.0,
      n.1.1.1.1.1.1.1.1.1.1.1.1.1.1.1.1.1.1.1.1.1.1.0,
    )

-- The switch leaves alone every route that is not a restricted write.
write_route_other :
    (limit : ℤ) (r : Route) → is_restricted_write r ≡ false → write_route limit r ≡ r
unfolding write_route is_restricted_write apply_case
write_route_other limit r h = ap (λ k. apply_case limit k r) (write_case_other r.name h)

effective_route_closed :
    (cfg : Config) (r : Route)
    → r.method ≢ "GET"
    → (writes_on cfg && is_restricted_write r) ≡ false
    → effective_route cfg r ≡ r
unfolding effective_route
effective_route_closed cfg r not_get h = elim (Bool-cases (writes_on cfg)) [
  | inl e ↦
      rw (e, read_route_write r not_get)
        (write_route_other cfg.limits.max_body_bytes r (ground arith))
  | inr e ↦ rw e (read_route_write r not_get)
]

-- Neither a public subscription nor anything else that apiHandler changes later on.
abbrev IsSettled : Route → Type 0
IsSettled r = subscription_route r ≡ r

IsSettled-enforced : (r : Route) → r.support ≡ policy_enforced → IsSettled r
unfolding subscription_route
IsSettled-enforced r h = rw h

IsSettled-privileged : (r : Route) → r.support ≡ privileged → IsSettled r
unfolding subscription_route
IsSettled-privileged r h = rw h

apply_case-IsSettled :
    (limit : ℤ) (k : WriteCase) (r : Route)
    → r.support ≡ privileged
    → IsSettled (apply_case limit k r)
unfolding apply_case subscription_route
apply_case-IsSettled limit user_create r h = refl
apply_case-IsSettled limit user_update r h = refl
apply_case-IsSettled limit user_action r h = refl
apply_case-IsSettled limit hwid_write r h = refl
apply_case-IsSettled limit node_write r h =
    unfold apply_case in IsSettled-enforced (apply_case limit node_write r) (ground arith)
apply_case-IsSettled limit (write_body scope) r h = refl
apply_case-IsSettled limit untouched r h = IsSettled-privileged r h

write_route-IsSettled :
    (limit : ℤ) (r : Route) → r.support ≡ privileged → IsSettled (write_route limit r)
unfolding write_route
write_route-IsSettled limit r h = apply_case-IsSettled limit (write_case r.name) r h

effective_route-IsSettled :
    (cfg : Config) (r : Route)
    → r.method ≢ "GET"
    → r.support ≡ privileged
    → IsSettled (effective_route cfg r)
unfolding effective_route
effective_route-IsSettled cfg r not_get h =
    if_both IsSettled (writes_on cfg)
      (rw (read_route_write r not_get) (write_route-IsSettled cfg.limits.max_body_bytes r h))
      (rw (read_route_write r not_get) (IsSettled-privileged r h))

-- What a token that may use a route of the write switch has.
abbrev pub MayWrite : Config → List String → Route → Type 0
MayWrite cfg scopes r =
    (has_privileged_scope scopes ≡ true)
    ⊎ ((writes_on cfg ≡ true)
        × (is_restricted_write r ≡ true)
        × Some (λ s. contains scopes s ≡ true) (effective_route cfg r).scopes)

permitted_closed :
    (tok : TokenPolicy) (r : Route)
    → r.support ≡ privileged
    → Permits tok r
    → has_privileged_scope tok.scopes ≡ true
permitted_closed tok r h (on, inl (same, p)) = p
permitted_closed tok r h (on, inr (same, c)) = cc

permitted_open :
    (tok : TokenPolicy) (r : Route)
    → Permits tok r
    → (has_privileged_scope tok.scopes ≡ true) ⊎ Some (λ s. contains tok.scopes s ≡ true) r.scopes
permitted_open tok r (on, inl (same, p)) = inl p
permitted_open tok r (on, inr (same, inl (p, _))) = inl p
permitted_open tok r (on, inr (same, inr m)) = inr m

-- A request with a method other than GET that the catalog matches is allowed only to a token that is
-- not disabled, and that has a privileged scope or, where both switches of write_safety are on and
-- the route is one of the restricted writes, one of the scopes that effectiveRoute gives the route.
pub write_needs_permission :
    (cfg : Config) (tok : TokenPolicy) (method path : String) (r : Route)
    → match_route (catalog (effective_version cfg.compatibility)) method path ≡ some r
    → method ≢ "GET"
    → (decide (some tok) (subscription_route (effective_route cfg r))).allow ≡ true
    → (tok.disabled ≡ false) × MayWrite cfg tok.scopes r
write_needs_permission cfg tok method path r matched not_get h =
    let version = effective_version cfg.compatibility in
    let (listed, (p, tried, serves)) =
      (match_route_iff (catalog version) method path).0 r matched in
    let not_get' : r.method ≢ "GET" = λ e. not_get (sym serves.method_eq ∙ e) in
    let closed = catalog_write_privileged version r listed not_get' in
    let settled = effective_route-IsSettled cfg r not_get' closed in
    let permits = (decide_iff tok (effective_route cfg r)).0.0 (rw settled at h) in
    (
      permits.0,
      elim (Bool-cases (writes_on cfg && is_restricted_write r)) [
        | inl e ↦
            let (on, write) = and_true _ _ e in
            elim (permitted_open tok (effective_route cfg r) permits) [
              | inl q ↦ inl q
              | inr m ↦ inr (on, write, m)
            ]
        | inr e ↦
            let same = effective_route_closed cfg r not_get' e in
            inl (permitted_closed tok r closed (subst (Permits tok) same permits))
      ],
    )
