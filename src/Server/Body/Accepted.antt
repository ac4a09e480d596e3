-- ===== src/Server/Body/Accepted.antt =====
-- internal/server/server.go: what validateUserConstraints has checked when it accepts a body.
use remnaguard.Prelude.{
  String, Bool, true, false, Option, none, some, List, [], ◌∷◌, ◌==◌, ◌≡◌, ◌⊎◌, inl, inr, refl, ap,
  sym, ◌∙◌, arith, eq_iff, All, Bool-cases, any, ℤ, is_positive, lebℤ, atoi,
}
use remnaguard.Config.{Constraints, contains}
use remnaguard.Json.{Json, Fields, get_field}
use remnaguard.Json.Unmarshal.{
  unmarshal_string, unmarshal_string_pointer, unmarshal_int_pointer, unmarshal_number,
  unmarshal_strings, unmarshal_refs,
}
use remnaguard.Remnawave.Ownership.{
  IsNamed, HasEmail, IsInRange, validate_username-IsNamed, validate_email-HasEmail,
  validate_telegram_id_iff,
}
use remnaguard.Server.Body.Values.{
  on_member, error_of_username, error_of_email, error_of_id, error_of_traffic, error_of_number,
  error_of_squads, error_of_allowed, ids_or, foreign_squad,
}

-- What a member's value stands for, and what holds of it.
abbrev pub Checked : (Json → Type 0) → String → Fields → Type 0
Checked P name obj = (raw : Json) → get_field name obj ≡ some raw → P raw

abbrev pub NameOk : (String → String → Option Bool) → Constraints → Json → Type 0
NameOk matches_regex c raw =
    (s : String) × (unmarshal_string raw ≡ some s) × IsNamed matches_regex c s

abbrev pub EmailOk : Constraints → Json → Type 0
EmailOk c raw =
    (unmarshal_string_pointer raw ≡ some none)
    ⊎ ((s : String) × (unmarshal_string_pointer raw ≡ some (some s)) × HasEmail c s)

abbrev pub IdOk : Constraints → Json → Type 0
IdOk c raw =
    (unmarshal_int_pointer raw ≡ some none)
    ⊎ ((n : ℤ) × (unmarshal_int_pointer raw ≡ some (some n)) × IsInRange c n)

-- A limit within the token's, and positive where the token forbids unlimited traffic.
abbrev pub TrafficOk : Constraints → Json → Type 0
TrafficOk c raw =
    (n : String) × (v : ℤ) × (unmarshal_number raw ≡ some n)
    × (atoi n ≡ some v)
    × (c.forbid_unlimited_traffic ≡ true → is_positive v ≡ true)
    × (is_positive c.max_traffic_limit_bytes ≡ true → lebℤ v c.max_traffic_limit_bytes ≡ true)

-- A missing, blank or allowed id.
abbrev pub IdAllowed : List String → Json → Type 0
IdAllowed allowed raw =
    (unmarshal_string_pointer raw ≡ some none)
    ⊎ ((s : String) × (unmarshal_string_pointer raw ≡ some (some s))
        × ((s ≡ "") ⊎ (contains allowed s ≡ true)))

abbrev pub SquadsAllowed : List String → Json → Type 0
SquadsAllowed allowed raw =
    (ids : List String) × (ids_or (unmarshal_strings raw) (unmarshal_refs raw) ≡ some ids)
    × All (λ s. (s ≡ "") ⊎ (contains allowed s ≡ true)) ids

pub member_lem :
    (check : Json → Option String) (o : Option Json) (raw : Json)
    → on_member check o ≡ none
    → o ≡ some raw
    → check raw ≡ none
member_lem check none raw h e = absurd (ground (arith, e))
member_lem check (some v) raw h e = ap check (json_inj raw v e) ∙ h
  where
    json_inj : (x y : Json) → some y ≡ some x → x ≡ y
    json_inj x y e = ground (arith, e)

pub username_lem :
    (matches_regex : String → String → Option Bool) (c : Constraints) (o : Option String)
    → error_of_username matches_regex c o ≡ none
    → (s : String) × (o ≡ some s) × IsNamed matches_regex c s
username_lem matches_regex c none h = absurd (ground (arith, h))
username_lem matches_regex c (some s) h = (s, refl, validate_username-IsNamed matches_regex c s h)

pub email_lem :
    (c : Constraints) (o : Option (Option String))
    → error_of_email c o ≡ none
    → (o ≡ some none) ⊎ ((s : String) × (o ≡ some (some s)) × HasEmail c s)
email_lem c none h = absurd (ground (arith, h))
email_lem c (some none) h = inl refl
email_lem c (some (some s)) h = inr (s, refl, validate_email-HasEmail c s h)

pub id_lem :
    (c : Constraints) (o : Option (Option ℤ))
    → error_of_id c o ≡ none
    → (o ≡ some none) ⊎ ((n : ℤ) × (o ≡ some (some n)) × IsInRange c n)
id_lem c none h = absurd (ground (arith, h))
id_lem c (some none) h = inl refl
id_lem c (some (some n)) h = inr (n, refl, (validate_telegram_id_iff c n).0 h)

traffic_lem :
    (c : Constraints) (v : ℤ)
    → error_of_traffic c (some v) ≡ none
    → (c.forbid_unlimited_traffic ≡ true → is_positive v ≡ true)
      × (is_positive c.max_traffic_limit_bytes ≡ true → lebℤ v c.max_traffic_limit_bytes ≡ true)
traffic_lem c v h = (λ f. ground (arith, h, f), λ m. ground (arith, h, m))

pub number_lem :
    (c : Constraints) (o : Option String)
    → error_of_number c o ≡ none
    → (n : String) × (v : ℤ) × (o ≡ some n)
      × (atoi n ≡ some v)
      × (c.forbid_unlimited_traffic ≡ true → is_positive v ≡ true)
      × (is_positive c.max_traffic_limit_bytes ≡ true → lebℤ v c.max_traffic_limit_bytes ≡ true)
number_lem c none h = absurd (ground (arith, h))
number_lem c (some n) h =
    let (v, read, bounds) = go (atoi n) refl in (n, v, refl, read, bounds.0, bounds.1)
  where
    go :
        (o : Option ℤ)
        → atoi n ≡ o
        → (v : ℤ) × (atoi n ≡ some v)
          × ((c.forbid_unlimited_traffic ≡ true → is_positive v ≡ true)
              × (is_positive c.max_traffic_limit_bytes ≡ true
                  → lebℤ v c.max_traffic_limit_bytes ≡ true))
    go none e = absurd (ground (arith, h, e))
    go (some v) e = (v, e, traffic_lem c v (ap (error_of_traffic c) (sym e) ∙ h))

one_allowed :
    (allowed : List String) (s : String)
    → foreign_squad allowed s ≡ false
    → (s ≡ "") ⊎ (contains allowed s ≡ true)
one_allowed allowed s h = elim (Bool-cases (s == "")) [
  | inl e ↦ inl ((eq_iff s "").0 e)
  | inr e ↦ inr (ground (arith, h, e))
]

ids_allowed :
    (allowed ids : List String)
    → any (foreign_squad allowed) ids ≡ false
    → All (λ s. (s ≡ "") ⊎ (contains allowed s ≡ true)) ids
ids_allowed allowed [] h = tt
ids_allowed allowed (s ∷ ids) h =
    (one_allowed allowed s (ground (arith, h)), ids_allowed allowed ids (ground (arith, h)))

pub allowed_lem :
    (invalid denied : String) (allowed : List String) (o : Option (Option String))
    → error_of_allowed invalid denied allowed o ≡ none
    → (o ≡ some none)
      ⊎ ((s : String) × (o ≡ some (some s)) × ((s ≡ "") ⊎ (contains allowed s ≡ true)))
allowed_lem invalid denied allowed none h = absurd (ground (arith, h))
allowed_lem invalid denied allowed (some none) h = inl refl
allowed_lem invalid denied allowed (some (some s)) h =
    inr (s, refl, one_allowed allowed s (ground (arith, h)))

pub squads_lem :
    (allowed : List String) (o : Option (List String))
    → error_of_squads allowed o ≡ none
    → (ids : List String) × (o ≡ some ids) × All (λ s. (s ≡ "") ⊎ (contains allowed s ≡ true)) ids
squads_lem allowed none h = absurd (ground (arith, h))
squads_lem allowed (some ids) h = (ids, refl, ids_allowed allowed ids (ground (arith, h)))
