-- ===== src/Routes/Matching.antt =====
-- internal/routes/catalog.go: which route Match returns.
use remnaguard.Prelude.{
  String, true, none, some, List, [], ◌∷◌, ◌&&◌, not, ◌==◌, ◌≡◌, ◌↔◌, ◌⊎◌, inl, inr, refl, ap,
  arith, eq_iff, Some, All, has_suffix, nat_eq, trim_right, and_true, Bool-cases, Option-cases,
}
use remnaguard.Routes.Types.{Route}
use remnaguard.Routes.Pattern.{compile, matches}
use remnaguard.Routes.Catalog.{first_match, match_route}

-- The route has the method, and the path matches its pattern.
pub record Serves (r : Route) (method path : String) : Type 0 where
  pub method_eq : r.method ≡ method
  pub matched : matches (compile r.pattern) path ≡ true

-- The paths that Match tries: the path itself and, without the slashes at its end, a path that ends
-- in one and is not "/api/".
abbrev pub IsTried : String → String → Type 0
IsTried path p =
    (p ≡ path)
    ⊎ ((not (path == "/api/") && has_suffix path "/" ≡ true) × (p ≡ trim_right (nat_eq b'/') path))

first_match_sound :
    (rs : List Route) (method path : String) (r : Route)
    → first_match rs method path ≡ some r
    → Some (λ s. s ≡ r) rs × Serves r method path
unfolding first_match
first_match_sound [] method path r h = absurd (ground arith)
first_match_sound (x ∷ rs) method path r h =
    elim (Bool-cases (x.method == method && matches (compile x.pattern) path)) [
      | inl e ↦
          let same : x ≡ r = ground arith in
          let (m, p) = and_true _ _ e in
          (inl same, rw (← same) (record { method_eq = (eq_iff _ _).0 m; matched = p }))
      | inr e ↦
          let (listed, serves) = first_match_sound rs method path r (ground arith) in
          (inr listed, serves)
    ]

first_match-none :
    (rs : List Route) (method path : String)
    → first_match rs method path ≡ none
    → All (λ s. ¬ Serves s method path) rs
unfolding first_match
first_match-none [] method path h = tt
first_match-none (x ∷ rs) method path h = (
  λ s. ground (arith, s.method_eq, s.matched, eq_iff x.method method),
  first_match-none rs method path (ground arith),
)

abbrev Chosen : List Route → String → String → Route → Type 0
Chosen rs method path r = Some (λ s. s ≡ r) rs × ((p : String) × IsTried path p × Serves r method p)

match_route_sound :
    (rs : List Route) (method path : String) (r : Route)
    → match_route rs method path ≡ some r
    → Chosen rs method path r
unfolding match_route
match_route_sound rs method path r h = elim (Option-cases (first_match rs method path)) [
  | inr (s, e) ↦
      let same : s ≡ r = ground arith in
      let (listed, serves) = first_match_sound rs method path r (rw e (ap some same)) in
      (listed, (path, inl refl, serves))
  | inl e ↦ elim (Bool-cases (not (path == "/api/") && has_suffix path "/")) [
    | inl t ↦
        let trimmed = trim_right (nat_eq b'/') path in
        let (listed, serves) = first_match_sound rs method trimmed r (ground arith) in
        (listed, (trimmed, inr (t, refl), serves))
    | inr t ↦ absurd (ground arith)
  ]
]

unserved_at :
    (rs : List Route) (method path : String)
    → match_route rs method path ≡ none
    → (p : String) → IsTried path p
    → All (λ s. ¬ Serves s method p) rs
unfolding match_route
unserved_at rs method path h p (inl e) = rw e (
    first_match-none rs method path (elim (Option-cases (first_match rs method path)) [
      | inl k ↦ k
      | inr (s, k) ↦ absurd (ground arith)
    ]))
unserved_at rs method path h p (inr (t, e)) = rw e (
    first_match-none rs method (trim_right (nat_eq b'/') path)
      (elim (Option-cases (first_match rs method path)) [
        | inl k ↦ ground arith
        | inr (s, k) ↦ absurd (ground arith)
      ]))

listed_unserved :
    (rs : List Route) (method path : String) (r : Route)
    → All (λ s. ¬ Serves s method path) rs
    → Some (λ s. s ≡ r) rs
    → ¬ Serves r method path
listed_unserved [] method path r h m serves = elim m [ ]
listed_unserved (x ∷ rs) method path r h (inl e) serves = h.0 (rw e serves)
listed_unserved (x ∷ rs) method path r h (inr m) serves =
    listed_unserved rs method path r h.1 m serves

-- Match returns a route of the catalog with the request's method whose pattern matches the path or,
-- for a path that ends in a slash and is not "/api/", the path without the slashes at its end; and
-- it returns none exactly if no route of the catalog serves a path that it tries so.
pub match_route_iff :
    (rs : List Route) (method path : String)
    → ((r : Route)
        → match_route rs method path ≡ some r
        → Some (λ s. s ≡ r) rs × ((p : String) × IsTried path p × Serves r method p))
      × ((match_route rs method path ≡ none)
          ↔ ((p : String) → IsTried path p → All (λ s. ¬ Serves s method p) rs))
match_route_iff rs method path = (
  match_route_sound rs method path,
  (
    unserved_at rs method path,
    λ unserved. elim (Option-cases (match_route rs method path)) [
      | inl e ↦ e
      | inr (r, e) ↦
          let (listed, (p, tried, serves)) = match_route_sound rs method path r e in
          absurd (listed_unserved rs method p r (unserved p tried) listed serves)
    ],
  ),
)
