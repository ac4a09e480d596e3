-- ===== src/Policy/Allowed.antt =====
-- internal/policy/policy.go: when a request is allowed.
use remnaguard.Prelude.{
  String, Bool, true, false, none, some, List, [], ◌∷◌, if◌then◌else◌, ◌≡◌, ◌≢◌, ◌⊎◌, ◌↔◌, inl, inr,
  refl, arith, Some, Bool-cases,
}
use remnaguard.Config.{TokenPolicy, contains}
use remnaguard.Routes.{Route, Support, policy_enforced, privileged}
use remnaguard.Policy.Decide.{
  decide, decide_support, any_scope, has_privileged_scope, allowed, denied,
}

any_scope_sound :
    (have scopes : List String)
    → any_scope have scopes ≡ true
    → (has_privileged_scope have ≡ true) ⊎ Some (λ s. contains have s ≡ true) scopes
unfolding any_scope
any_scope_sound have [] h = absurd (ground arith)
any_scope_sound have (x ∷ xs) h = elim (Bool-cases (contains have x)) [
  | inl e ↦ inr (inl e)
  | inr e ↦ elim (Bool-cases (has_privileged_scope have)) [
    | inl p ↦ inl p
    | inr n ↦ elim (any_scope_sound have xs (ground arith)) [ inl p ↦ inl p | inr m ↦ inr (inr m) ]
  ]
]

any_scope_complete :
    (have scopes : List String)
    → Some (λ s. contains have s ≡ true) scopes
    → any_scope have scopes ≡ true
unfolding any_scope
any_scope_complete have [] m = elim m [ ]
any_scope_complete have (x ∷ xs) (inl e) = rw e
any_scope_complete have (x ∷ xs) (inr m) = ground (arith, any_scope_complete have xs m)

any_scope_privileged :
    (have : List String) (x : String) (xs : List String)
    → has_privileged_scope have ≡ true
    → any_scope have (x ∷ xs) ≡ true
unfolding any_scope
any_scope_privileged have x xs h = ground arith

-- What a token must have for a route.
abbrev pub Permits : TokenPolicy → Route → Type 0
Permits tok route =
    (tok.disabled ≡ false)
    × (((route.support ≡ privileged) × (has_privileged_scope tok.scopes ≡ true))
        ⊎ ((route.support ≡ policy_enforced)
            × (((has_privileged_scope tok.scopes ≡ true) × (route.scopes ≢ []))
                ⊎ Some (λ s. contains tok.scopes s ≡ true) route.scopes)))

enforced_sound :
    (have scopes : List String)
    → any_scope have scopes ≡ true
    → ((has_privileged_scope have ≡ true) × (scopes ≢ []))
      ⊎ Some (λ s. contains have s ≡ true) scopes
enforced_sound have [] h = elim (any_scope_sound have [] h) [
  | inl p ↦ absurd (unfold any_scope in ground arith)
  | inr m ↦ inr m
]
enforced_sound have (x ∷ xs) h = elim (any_scope_sound have (x ∷ xs) h) [
  | inl p ↦ inl (p, λ e. cc)
  | inr m ↦ inr m
]

enforced_complete :
    (have scopes : List String)
    → ((has_privileged_scope have ≡ true) × (scopes ≢ []))
      ⊎ Some (λ s. contains have s ≡ true) scopes
    → any_scope have scopes ≡ true
enforced_complete have [] (inl (p, ne)) = absurd (ne refl)
enforced_complete have (x ∷ xs) (inl (p, ne)) = any_scope_privileged have x xs p
enforced_complete have xs (inr m) = any_scope_complete have xs m

allow_if :
    (b : Bool) (reason : String) (r : Route) → (if b then allowed r else denied reason r).allow ≡ b
allow_if true reason r = refl
allow_if false reason r = refl

support_sound :
    (tok : TokenPolicy) (s : Support) (r : Route)
    → r.support ≡ s
    → tok.disabled ≡ false
    → (decide_support tok.scopes s r).allow ≡ true
    → Permits tok r
unfolding decide_support
support_sound tok privileged r same on h = (on, inl (same, rw allow_if at h))
support_sound tok policy_enforced r same on h =
    (on, inr (same, enforced_sound tok.scopes r.scopes (rw allow_if at h)))
support_sound tok _ r same on h = cc

-- Decide allows a request exactly if the token is not disabled and either the route is privileged
-- and the token has a privileged scope, or the route is policy-enforced and the token has one of the
-- route's scopes or, where the route has any, a privileged scope. A missing token is denied.
pub decide_iff :
    (tok : TokenPolicy) (route : Route)
    → (((decide (some tok) route).allow ≡ true) ↔ Permits tok route)
      × ((decide none route).allow ≡ false)
unfolding decide
decide_iff tok route = ((sound, complete), refl)
  where
    sound : (decide (some tok) route).allow ≡ true → Permits tok route
    sound h = elim (Bool-cases tok.disabled) [
      | inl off ↦ absurd (ground arith)
      | inr on ↦ support_sound tok route.support route refl on (ground arith)
    ]

    complete : Permits tok route → (decide (some tok) route).allow ≡ true
    complete (on, inl (same, p)) = rw on (rw same (unfold decide_support in rw p))
    complete (on, inr (same, c)) =
        rw on (rw same (unfold decide_support in rw (enforced_complete tok.scopes route.scopes c)))
