-- ===== src/Httputil/Query.antt =====
-- internal/httputil/validate.go: ValidateQuery and ValidateQueryStructural. What url.ParseQuery gives for
-- a query, none for a malformed one, is the parameter `parse_query`; the loops over its map stop at a
-- first offending entry, here the first in the order of the list that stands for the map.
use remnaguard.Prelude.{
  String, Bool, true, false, not, Option, none, some, List, [], ◌∷◌, if◌then◌else◌, ◌≡◌, refl,
  arith, length, ltb, leb, contains_any, any, All, subst,
}
use remnaguard.Config.{contains}

abbrev Values : Type 0
Values = List (String × List String)

abbrev unsafe_value : String → Bool
unsafe_value v = contains_any (0 ∷ 13 ∷ 10 ∷ []) v

-- The loop of ValidateQuery, none for no error.
unfoldable pub query_error : (String → Bool) → Values → Option String
query_error allowed [] = none
query_error allowed ((key, vals) ∷ values) =
    let rest = query_error allowed values in
    if ltb 1 (length vals)
    then some "duplicate_query_param"
    else if not (allowed key)
    then some "unknown_query_param"
    else if any unsafe_value vals
    then some "unsafe_query_value"
    else rest

-- An entry with at most one value, of a known name and without control characters.
abbrev pub IsClean : (String → Bool) → String × List String → Type 0
IsClean allowed e =
    (leb (length e.1) 1 ≡ true) × (allowed e.0 ≡ true) × (any unsafe_value e.1 ≡ false)

query_error_iff :
    (allowed : String → Bool) (values : Values)
    → (query_error allowed values ≡ none → All (IsClean allowed) values)
      × (All (IsClean allowed) values → query_error allowed values ≡ none)
unfolding query_error
query_error_iff allowed [] = (λ h. tt, λ h. refl)
query_error_iff allowed ((key, vals) ∷ values) =
    let next = query_error_iff allowed values in
    (
      λ h. (ground (arith, h), next.0 (ground (arith, h))),
      λ ((a, b, c), rest). ground (arith, next.1 rest),
    )

abbrev error_of : (String → Bool) → Option Values → Option String
error_of allowed none = some "invalid_query"
error_of allowed (some values) = query_error allowed values

error_of_iff :
    (allowed : String → Bool) (parsed : Option Values)
    → (error_of allowed parsed ≡ none
        → ((values : Values) × (parsed ≡ some values) × All (IsClean allowed) values))
      × (((values : Values) × (parsed ≡ some values) × All (IsClean allowed) values)
          → error_of allowed parsed ≡ none)
error_of_iff allowed none = (λ h. ground (arith, h), λ (values, e, clean). ground (arith, e))
error_of_iff allowed (some values) = (
  λ h. (values, refl, (query_error_iff allowed values).0 h),
  λ (others, e, clean).
      (query_error_iff allowed values).1
        (subst (λ vs. All (IsClean allowed) vs) (ground (arith, e)) clean),
)

module _ (parse_query : String → Option (List (String × List String))) where
  -- ValidateQuery and ValidateQueryStructural, none for no error
  unfoldable pub validate_query : String → List String → Option String
  validate_query raw_query allowed = error_of (contains allowed) (parse_query raw_query)

  unfoldable pub validate_query_structural : String → Option String
  validate_query_structural raw_query = error_of (λ key. true) (parse_query raw_query)

  -- ValidateQuery accepts a query exactly if it parses and every parameter has one value at most, is
  -- one of the allowed names and holds no NUL, CR or LF; whatever the order of its parameters.
  pub validate_query_iff :
      (raw_query : String) (allowed : List String)
      → (validate_query raw_query allowed ≡ none
          → ((values : List (String × List String)) × (parse_query raw_query ≡ some values)
              × All (IsClean (contains allowed)) values))
        × (((values : List (String × List String)) × (parse_query raw_query ≡ some values)
              × All (IsClean (contains allowed)) values)
            → validate_query raw_query allowed ≡ none)
  unfolding validate_query
  validate_query_iff raw_query allowed = error_of_iff (contains allowed) (parse_query raw_query)
