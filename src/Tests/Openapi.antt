-- ===== src/Tests/Openapi.antt =====
-- A catalog of one route beside a document.
use remnaguard.Prelude.{
  String, true, Option, some, none, List, [], ◌∷◌, ◌≡◌, refl, All, map, text_functions, is_empty,
}
use remnaguard.Config.{contains}
use remnaguard.Config.Valid.{NoRepeat}
use remnaguard.Routes.Catalog.{route_key}
use remnaguard.Routes.Openapi.{
  normalize_route_shape, shape_from, is_http_method, method_keys, shape_key, route_faults,
  duplicate_keys, catalog_faults, spec_keys, want_keys, times_in, distinct, insert_text, sort_texts,
  check_openapi, check_openapi_strict,
}
use remnaguard.Routes.Strict.{check_openapi_strict-IsComplete}
use remnaguard.Tests.Access.{update}

a_parameter : normalize_route_shape "/api/users/{uuid}/a/{}/{b" ≡ "/api/users/{}/a/{}/{b"
unfolding normalize_route_shape shape_from text_functions
a_parameter = refl

abbrev document : List (String × Option (List String))
document = ("/api/users", some ("patch" ∷ "summary" ∷ [])) ∷ ("/api/nodes", none) ∷ []

strict_clean : check_openapi_strict (update ∷ []) document ≡ true
unfolding check_openapi_strict check_openapi spec_keys method_keys want_keys distinct insert_text
    sort_texts duplicate_keys catalog_faults route_faults normalize_route_shape shape_from
    is_http_method times_in contains route_key text_functions
strict_clean = refl

check_openapi_strict-IsComplete_example :
    ((key : String) → contains (want_keys (update ∷ [])) key ≡ contains (spec_keys document) key)
    × NoRepeat [] (map shape_key (update ∷ []))
    × All (λ r. is_empty (route_faults (shape_key r) r) ≡ true) (update ∷ [])
check_openapi_strict-IsComplete_example =
    check_openapi_strict-IsComplete (update ∷ []) document strict_clean
